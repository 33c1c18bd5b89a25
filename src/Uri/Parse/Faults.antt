-- ===== src/Uri/Parse/Faults.antt =====
-- When `_S_post_parse` has a result, and when it is undefined behaviour.
use impact_socket_set.Base.{ℕ, true, false, ◌↔◌, none, List, [], map, ◌≡◌, refl, ◌∙◌, arith}
use impact_socket_set.Base.Int.{ℤ, pos, negsuc}
use impact_socket_set.Uri.{Uri}
use impact_socket_set.Uri.Chars.{tolower}
use impact_socket_set.Uri.Ports.{PortState, find, scheme_port_dictionary, find_port, default_port}
use impact_socket_set.Uri.Ports.Registry.{Call, run, find_port-run}
use impact_socket_set.Uri.Parse.{post_parse}

-- With a scheme outside the permanent dictionary and a written port, the end of the user
-- dictionary is dereferenced, whatever schemes the program registered before.
post_parse_faults :
    (calls : List Call) (u : Uri) (n : ℕ)
    → find (map tolower u.scheme) scheme_port_dictionary ≡ none
    → u.port ≡ pos n
    → post_parse (run calls []) u ≡ none
unfolding post_parse default_port
post_parse_faults calls u n h e =
    let unknown : find_port (map tolower u.scheme) (run calls []) ≡ none =
      find_port-run calls _ ∙ h in
    let port : default_port (find_port (map tolower u.scheme) (run calls [])) u.port ≡ none =
      rw (unknown, e) refl in
    ground (arith, port)

-- The port of the result: the written one, else the scheme's; and whether the scheme implies it.
abbrev pub PortFrom : ℤ → ℤ → PortState → Type 0
PortFrom known (pos n) p = (p.port ≡ pos n) × ((p.has_default_port ≡ true) ↔ (known ≡ pos n))
PortFrom (pos d) (negsuc n) p = (p.port ≡ pos d) × (p.has_default_port ≡ true)
PortFrom (negsuc d) (negsuc n) p = (p.port ≡ negsuc n) × (p.has_default_port ≡ false)
