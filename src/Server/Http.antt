-- ===== src/Server/Http.antt =====
-- The responses of the handlers (server/handlers.rs).
use localsend_rs.Protocol.{DeviceInfo, PrepareUploadResponse}

pub data StatusCode : Type 0 where
  ok no_content bad_request unauthorized forbidden not_found conflict too_many_requests : StatusCode
  internal_server_error service_unavailable : StatusCode

pub data Response : Type 0 where
  status : StatusCode → Response
  device_json : DeviceInfo → Response
  prepared : PrepareUploadResponse → Response
