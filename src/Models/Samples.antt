-- ===== src/Models/Samples.antt =====
-- The theorems on the projection at a concrete event.
use tengen.Prelude.{String, Option, none, some, ◌≡◌, refl, if◌then◌else◌, ◌==◌}
use tengen.Models.NormalizedEvent.{NormalizedEvent}
use tengen.Models.NormalizedEvent.Sample.{event_of}
use tengen.Models.Projection.{to_udm, parse_timestamp}
use tengen.Models.Projection.Traffic.{network_of, network_of-to_udm}
use tengen.Models.Udm.Event.{Datetime, aware}

-- A reader of times that knows one of them
abbrev fromisoformat : String → Option Datetime
fromisoformat s = if s == "2024-01-01T00:00:00+00:00" then some (aware 7) else none

zulu : parse_timestamp fromisoformat " 2024-01-01T00:00:00Z" ≡ some (aware 7)
unfolding parse_timestamp tengen.Text.ends_with tengen.Text.strip tengen.Text.but_last
zulu = refl

abbrev bob : NormalizedEvent
bob = event_of "bob@example.org"

network_of-to_udm_example : network_of (to_udm fromisoformat bob) ≡ bob.network
network_of-to_udm_example = network_of-to_udm fromisoformat bob
