-- ===== src/Errno.antt =====
-- Include/utils/errno.h and Source/utils/errno.cpp: the library's error codes.
-- `imp_errno` is a thread-local variable: an operation that writes it returns its new value.
use impact_socket_set.Base.{Bool}
use Prim.Native.String.{String}

pub data ImpErr : Type 0 where
  success unknown address_size address_family : ImpErr
  b64_badsym b64_badpad : ImpErr
  utf8_badsym utf8_badhead utf8_badtrail : ImpErr
  uri_scheme uri_colon uri_nocolon uri_pathabempty uri_pathdelim uri_authinpath : ImpErr
  uri_percentenc uri_multi_at uri_multi_ip_lit uri_ip_lit_mismatch uri_userinfo_sym : ImpErr
  uri_host_sym uri_port_sym uri_port_limit uri_invl_ip_lit uri_scheme_rsv : ImpErr
  uri_scheme_notfound : ImpErr

-- What a call with an output argument leaves: the value returned, `imp_errno`, and the output.
pub record Answer {ℓ} (A : Type ℓ) : Type ℓ where
  pub accepted : Bool
  pub errno : ImpErr
  pub out : A

unfoldable pub error_string : ImpErr → String
error_string success = "Success"
error_string unknown = "Unknown internal error"
error_string address_size = "Unsupported address size"
error_string address_family = "Unsupported address family"
error_string b64_badsym = "Bad base-64 symbol"
error_string b64_badpad = "Data padding mismatch"
error_string utf8_badsym = "Bad unicode symbol"
error_string utf8_badhead = "Bad unicode byte header"
error_string utf8_badtrail = "Bad unicode byte trailer"
error_string uri_scheme = "Failed to parse uri scheme"
error_string uri_colon = "Colon delimiter out of place"
error_string uri_nocolon = "No collon delimiter"
error_string uri_pathabempty = "Path is neither absolute nor empty"
error_string uri_pathdelim = "Path delimiter '/' found out of place"
error_string uri_authinpath = "Unexpected '//' in uri path"
error_string uri_percentenc = "Invalid percent encoding"
error_string uri_multi_at = "More than one '@' found in auth name"
error_string uri_multi_ip_lit = "More than one IP literal identifier found in auth name"
error_string uri_ip_lit_mismatch = "'[' and ']' IP literal identifiers missing or out of order"
error_string uri_userinfo_sym = "Unexpected character or symbol in userinfo"
error_string uri_host_sym = "Unexpected character or symbol in host"
error_string uri_port_sym = "Unexpected character or symbol in port"
error_string uri_port_limit = "Port size unsupported"
error_string uri_invl_ip_lit = "Invalid IP literal"
error_string uri_scheme_rsv = "Scheme already reserved (permanent scheme)"
error_string uri_scheme_notfound = "Registered scheme not found"
