-- ===== src/Models/Udm/Enums.antt =====
-- The enumerations of models/udm.py: each constructor stands for the text of its name in capitals.
pub data UdmEventType : Type 0 where
  generic_event process_launch process_termination process_injection : UdmEventType
  process_privilege_escalation process_module_load process_uncategorized : UdmEventType
  file_creation file_deletion file_modification file_read file_open : UdmEventType
  file_uncategorized registry_creation registry_modification : UdmEventType
  registry_deletion setting_modification user_login user_logout : UdmEventType
  user_creation user_deletion user_change_password user_change_permissions : UdmEventType
  user_resource_access user_resource_creation user_resource_deletion : UdmEventType
  user_resource_update_content user_resource_update_permissions : UdmEventType
  user_uncategorized network_connection network_flow network_http : UdmEventType
  network_dns network_uncategorized resource_creation resource_deletion : UdmEventType
  resource_permissions_change resource_read resource_written : UdmEventType
  service_creation service_deletion service_modification scan_host : UdmEventType
  scan_network scan_uncategorized status_update system_audit_log_wipe : UdmEventType

pub data UdmSeverity : Type 0 where
  unknown_severity informational low medium high critical : UdmSeverity

pub data UdmSecurityAction : Type 0 where
  unknown_action allow allow_with_modification block quarantine fail : UdmSecurityAction

pub data NetworkDirection : Type 0 where
  unknown_direction inbound outbound broadcast : NetworkDirection

pub data Platform : Type 0 where
  unknown_platform windows mac linux : Platform
