-- ===== src/Uri/Ports.antt =====
-- The scheme dictionaries of uri.cpp, and the part of `_S_post_parse` that reads them.
pub mod Registry
use Prim.Native.String.{String}
use impact_socket_set.Base.{
  ℕ, Bool, true, false, ◌&&◌, ◌==◌, if◌then◌else◌, Option, none, some, List, [], ◌∷◌, ◌++◌, map,
  Bytes,
}
use impact_socket_set.Base.Int.{ℤ, pos, negsuc, is_nonneg, ==ℤ}
use impact_socket_set.Errno.{ImpErr, success, uri_scheme_rsv, uri_scheme_notfound, Answer}
use impact_socket_set.Uri.Chars.{codes}

-- std::map<std::string,int>, in the order of insertion; a key stands in it once.
abbrev pub PortMap : Type 0
PortMap = List (Bytes × ℤ)

unfoldable pub bytes_eq : Bytes → Bytes → Bool
bytes_eq [] [] = true
bytes_eq (x ∷ xs) (y ∷ ys) = x == y && bytes_eq xs ys
bytes_eq _ _ = false

unfoldable pub find : Bytes → PortMap → Option ℤ
find key [] = none
find key ((k, v) ∷ rest) = if bytes_eq k key then some v else find key rest

-- dictionary[key] = value
unfoldable pub assign : Bytes → ℤ → PortMap → PortMap
assign key value [] = (key, value) ∷ []
assign key value ((k, v) ∷ rest) =
    if bytes_eq k key then (k, value) ∷ rest else (k, v) ∷ assign key value rest

-- dictionary.erase(dictionary.find(key))
unfoldable pub erase : Bytes → PortMap → PortMap
erase key [] = []
erase key ((k, v) ∷ rest) = if bytes_eq k key then rest else (k, v) ∷ erase key rest

abbrev entry : String × ℤ → Bytes × ℤ
entry (name, port) = (codes name, port)

-- The ports that are assigned to registered schemes; -1 for none.
unfoldable pub scheme_port_dictionary : PortMap
scheme_port_dictionary = map entry (
    ("aaa", pos 3868)
    ∷ ("aaas", pos 5658)
    ∷ ("about", pos 2019)
    ∷ ("acap", pos 674)
    ∷ ("acct", negsuc 0)
    ∷ ("cap", pos 1026)
    ∷ ("cid", negsuc 0)
    ∷ ("coap", pos 5683)
    ∷ ("coap+tcp", pos 5683)
    ∷ ("coap+ws", pos 5683)
    ∷ ("coaps", pos 5684)
    ∷ ("coaps+tcp", pos 5684)
    ∷ ("coaps+ws", pos 5684)
    ∷ ("crid", negsuc 0)
    ∷ ("data", negsuc 0)
    ∷ ("dav", negsuc 0)
    ∷ ("dict", pos 2628)
    ∷ ("dns", negsuc 0)
    ∷ ("example", negsuc 0)
    ∷ ("file", negsuc 0)
    ∷ ("ftp", pos 21)
    ∷ ("geo", negsuc 0)
    ∷ ("go", pos 1096)
    ∷ ("gopher", pos 70)
    ∷ ("h323", negsuc 0)
    ∷ ("http", pos 80)
    ∷ ("https", pos 443)
    ∷ ("iax", pos 4569)
    ∷ ("icap", pos 1344)
    ∷ ("im", negsuc 0)
    ∷ ("imap", pos 143)
    ∷ ("info", negsuc 0)
    ∷ ("ipp", pos 631)
    ∷ ("ipps", pos 631)
    ∷ ("iris", negsuc 0)
    ∷ ("iris.beep", pos 702)
    ∷ ("iris.lwz", pos 715)
    ∷ ("iris.xpc", pos 713)
    ∷ ("iris.xpcs", pos 714)
    ∷ ("jabber", negsuc 0)
    ∷ ("ldap", pos 389)
    ∷ ("mailto", negsuc 0)
    ∷ ("mid", negsuc 0)
    ∷ ("msrp", pos 2855)
    ∷ ("msrps", pos 2855)
    ∷ ("mtqp", pos 1038)
    ∷ ("mupdate", pos 3905)
    ∷ ("news", pos 2009)
    ∷ ("nfs", pos 2049)
    ∷ ("ni", negsuc 0)
    ∷ ("nih", negsuc 0)
    ∷ ("nntp", pos 119)
    ∷ ("opaquelocktoken", negsuc 0)
    ∷ ("pkcs11", negsuc 0)
    ∷ ("pop", pos 110)
    ∷ ("pres", negsuc 0)
    ∷ ("reload", pos 6084)
    ∷ ("reload-config", pos 6084)
    ∷ ("rtsp", pos 554)
    ∷ ("rtsps", pos 322)
    ∷ ("rtspu", negsuc 0)
    ∷ ("service", negsuc 0)
    ∷ ("session", negsuc 0)
    ∷ ("shttp", pos 80)
    ∷ ("sieve", pos 4190)
    ∷ ("sip", pos 5060)
    ∷ ("sips", pos 5061)
    ∷ ("sms", negsuc 0)
    ∷ ("snmp", pos 161)
    ∷ ("soap.beep", negsuc 0)
    ∷ ("soap.beeps", negsuc 0)
    ∷ ("stun", pos 3478)
    ∷ ("stuns", pos 5349)
    ∷ ("tag", negsuc 0)
    ∷ ("tel", negsuc 0)
    ∷ ("telnet", pos 23)
    ∷ ("tftp", pos 69)
    ∷ ("thismessage", negsuc 0)
    ∷ ("tip", pos 3372)
    ∷ ("tn3270", pos 23)
    ∷ ("turn", pos 3478)
    ∷ ("turns", pos 5349)
    ∷ ("tv", negsuc 0)
    ∷ ("urn", negsuc 0)
    ∷ ("vemmi", pos 575)
    ∷ ("vnc", pos 5900)
    ∷ ("ws", pos 80)
    ∷ ("wss", pos 443)
    ∷ ("xcon", negsuc 0)
    ∷ ("xcon-userid", negsuc 0)
    ∷ ("xmlrpc.beep", pos 602)
    ∷ ("xmlrpc.beeps", pos 602)
    ∷ ("xmpp", negsuc 0)
    ∷ ("z39.50r", pos 210)
    ∷ ("z39.50s", pos 210)
    ∷ [])

-- Both calls return the new user dictionary.
unfoldable pub register_scheme_port : Bytes → ℤ → PortMap → Answer PortMap
register_scheme_port scheme port usr = elim (find scheme scheme_port_dictionary) [
  | none ↦ record { accepted = false; errno = uri_scheme_rsv; out = usr }
  | some known ↦ record { accepted = true; errno = success; out = assign scheme port usr }
]

unfoldable pub deregister_scheme_port : Bytes → PortMap → Answer PortMap
deregister_scheme_port scheme usr = elim (find scheme usr) [
  | none ↦ record { accepted = false; errno = uri_scheme_notfound; out = usr }
  | some known ↦ record { accepted = true; errno = success; out = erase scheme usr }
]

-- The token of `_S_post_parse`: the permanent dictionary goes first. `none` is the end of the
-- user dictionary.
unfoldable pub find_port : Bytes → PortMap → Option ℤ
find_port scheme usr = elim (find scheme scheme_port_dictionary) [
  | none ↦ find scheme usr
  | some port ↦ some port
]

pub record PortState : Type 0 where
  pub port : ℤ
  pub has_default_port : Bool

-- The port and the flag after parsing. A port that was written is compared with the token's
-- even where the token is the end of the dictionary, which is undefined: `none`.
unfoldable pub default_port : Option ℤ → ℤ → Option PortState
default_port none (pos n) = none
default_port none (negsuc n) = some (record { port = negsuc n; has_default_port = false })
default_port (some known) (pos n) =
    some (record { port = pos n; has_default_port = ==ℤ (pos n) known })
default_port (some known) (negsuc n) = some (
    if is_nonneg known
    then record { port = known; has_default_port = true }
    else record { port = negsuc n; has_default_port = false })
