-- ===== src/Models/Udm/Nouns.antt =====
-- The nouns of models/udm.py, and the noun with defaults only.
use tengen.Prelude.{String, Option, none, List, [], Dict}
use tengen.Value.{ℤ}
use tengen.Models.Udm.Enums.{Platform}

pub record Location : Type 0 where
  pub name : String
  pub city : String
  pub state : String
  pub country_or_region : String

pub record User : Type 0 where
  pub userid : String
  pub user_display_name : String
  pub email_addresses : List String
  pub windows_sid : String
  pub product_object_id : String
  pub group_identifiers : List String
  pub attribute_roles : List String

abbrev pub empty_user : User
empty_user = record {
  userid = "";
  user_display_name = "";
  email_addresses = [];
  windows_sid = "";
  product_object_id = "";
  group_identifiers = [];
  attribute_roles = [];
}

pub record File : Type 0 where
  pub full_path : String
  pub file_type : String
  pub mime_type : String
  pub size : Option ℤ
  pub md5 : String
  pub sha1 : String
  pub sha256 : String

pub record Process : Type 0 where
  pub pid : String
  pub command_line : String
  pub product_specific_process_id : String
  pub parent_pid : String
  pub file : Option File

pub record RegistryEntry : Type 0 where
  pub registry_key : String
  pub registry_value_name : String
  pub registry_value_data : String

pub record Resource : Type 0 where
  pub name : String
  pub resource_type : String
  pub resource_subtype : String
  pub product_object_id : String
  pub attribute_labels : Dict String

abbrev pub empty_resource : Resource
empty_resource = record {
  name = "";
  resource_type = "";
  resource_subtype = "";
  product_object_id = "";
  attribute_labels = [];
}

pub record CloudContext : Type 0 where
  pub environment : String
  pub project_id : String
  pub availability_zone : String

abbrev pub empty_cloud_context : CloudContext
empty_cloud_context = record { environment = ""; project_id = ""; availability_zone = "" }

pub record Noun : Type 0 where
  pub hostname : String
  pub asset_id : String
  pub ip : List String
  pub port : Option ℤ
  pub mac : List String
  pub administrative_domain : String
  pub namespace : String
  pub url : String
  pub domain : String
  pub email : String
  pub application : String
  pub platform : Platform
  pub platform_version : String
  pub user : Option User
  pub process : Option Process
  pub file : Option File
  pub registry : Option RegistryEntry
  pub resource : Option Resource
  pub cloud : Option CloudContext
  pub location : Option Location
  pub labels : Dict String

abbrev pub empty_noun : Noun
empty_noun = record {
  hostname = "";
  asset_id = "";
  ip = [];
  port = none;
  mac = [];
  administrative_domain = "";
  namespace = "";
  url = "";
  domain = "";
  email = "";
  application = "";
  platform = Platform.unknown_platform;
  platform_version = "";
  user = none;
  process = none;
  file = none;
  registry = none;
  resource = none;
  cloud = none;
  location = none;
  labels = [];
}
