-- ===== src/Uri.antt =====
-- Source/rfc/uri.cpp and Include/rfc/uri.h: uniform resource identifiers (RFC 3986).
-- Here are the object and the state of its parser; the children are the parts of the code.
pub mod Chars
pub mod Percent
pub mod Normalize
pub mod Ports
pub mod Literal
pub mod Authority
pub mod Parse
pub mod Print
mod Tests
use impact_socket_set.Base.{
  ℕ, ◌-◌, Bool, true, false, Option, none, some, [], Bytes, take, drop, get_or,
}
use impact_socket_set.Base.Int.{ℤ, negsuc}
use impact_socket_set.Errno.{ImpErr}

pub record Uri : Type 0 where
  pub scheme : Bytes
  pub userinfo : Bytes
  pub host : Bytes
  pub path : Bytes
  pub query : Bytes
  pub fragment : Bytes
  pub port : ℤ
  pub has_auth : Bool
  pub has_default_port : Bool

-- uri::uri()
abbrev pub empty : Uri
empty = record {
  scheme = [];
  userinfo = [];
  host = [];
  path = [];
  query = [];
  fragment = [];
  port = negsuc 0;
  has_auth = false;
  has_default_port = false;
}

-- `struct parser_context` without its `data`, which no function of the parser changes and which
-- is an argument here, and the thread's `imp_errno`. `result` is `none` for a null pointer.
pub record Context : Type 0 where
  pub current_idx : ℕ
  pub result : Option Uri
  pub errno : ImpErr

-- What a function of the parser does: it returns true, or false, in a new state, or it runs into
-- undefined behaviour.
pub data Parsed : Type 0 where
  done : Context → Parsed
  fail : Context → Parsed
  fault : Parsed

infixl 5 ◌>>=◌
abbrev pub ◌>>=◌ : Parsed → (Context → Parsed) → Parsed
done s >>= f = f s
fail s >>= f = fail s
fault >>= f = fault

-- `imp_errno = e; return false;`
abbrev pub fail_with : ImpErr → Context → Parsed
fail_with e s = fail (record s { errno = e })

abbrev map_result : (Uri → Uri) → Option Uri → Option Uri
map_result f none = none
map_result f (some u) = some (f u)

-- `if (context->result) …`
abbrev pub update : (Uri → Uri) → Context → Context
update f s = record s { result = map_result f s.result }

abbrev pub move_to : ℕ → Context → Context
move_to i s = record s { current_idx = i }

-- data[i]; the place behind the last holds 0
abbrev pub char_at : Bytes → ℕ → ℕ
char_at text i = get_or text i 0

-- std::string(data.begin() + first, data.begin() + last)
abbrev pub slice : Bytes → ℕ → ℕ → Bytes
slice text first last = take (last - first) (drop first text)
