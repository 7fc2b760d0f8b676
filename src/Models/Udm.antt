-- ===== src/Models/Udm.antt =====
-- models/udm.py: the records of the unified data model with their defaults.
pub mod Enums
pub mod Nouns
pub mod Event
