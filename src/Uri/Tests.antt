-- ===== src/Uri/Tests.antt =====
-- Runs of the URI code at concrete inputs.
use Prim.Native.String.{String}
use impact_socket_set.Base.{
  if◌then◌else◌, ◌≤◌, true, false, some, List, [], ◌∷◌, ◌++◌, Bytes, length, ◌≡◌, refl, arith,
}
use impact_socket_set.Abnf.{alpha, digit, hexdig}
use impact_socket_set.Base.Int.{pos}
use impact_socket_set.Errno.{success, unknown, uri_port_sym}
use impact_socket_set.Uri.{Uri, Parsed, done, fault, empty}
use impact_socket_set.Uri.Chars.{
  codes, tolower, toupper, is_space, is_alpha, is_digit, is_hexdig, unreserved, gen_delims,
  sub_delims, reserved, pchar, count_while,
}
use impact_socket_set.Uri.Percent.{
  percent_decode, raw_decode, decode_loop, decode_step, pair_output, pair_value,
}
use impact_socket_set.Uri.Percent.Decoded.{decoded, visible, well_encoded}
use impact_socket_set.Uri.Percent.Errors.{percent_decode_verdict}
use impact_socket_set.Uri.Percent.Raw.{encode_all, raw_decode-encode_all}
use impact_socket_set.Uri.Normalize.{path_normalize, walk, step, slash, leave}
use impact_socket_set.Uri.Normalize.Absolute.{path_normalize_absolute}
use impact_socket_set.Uri.Ports.{default_port, bytes_eq, find, find_port, scheme_port_dictionary}
use impact_socket_set.Uri.Ports.Registry.{Call, register, deregister, run, find_port-run}
use impact_socket_set.Uri.Literal.{parse_ip_literal}
use impact_socket_set.Uri.Literal.Ipv6.{
  ipv6_address, dec, dec_loop, dec_step, dec_state_5, dec_state_4, dec_state_3, dec_end, hex,
  hex_loop, hex_step, hex_end,
}
use impact_socket_set.Uri.Literal.Ipv6.Embedded.{DoubleColon}
use impact_socket_set.Uri.Literal.Ipv6.Dotted.{ipv6_address-DoubleColon}
use impact_socket_set.Uri.Authority.{
  parse_parts, parse_port, parse_authority, scan, mark, split, host_and_port, parse_userinfo,
  parse_host, stoi,
}
use impact_socket_set.Uri.Authority.Bounds.{Bounded}
use impact_socket_set.Uri.Parse.{
  parse, post_parse, parse_uri, parse_scheme, parse_hier_part, parse_path, path_segments, path_from,
  path_loop, parse_query, parse_fragment,
}
use impact_socket_set.Uri.Parse.Bounds.{parse-Bounded}

abbrev encoded : Bytes
encoded = codes "aB%2f%4a"

percent_decode_verdict_example : percent_decode encoded true unknown ≡ (
    if well_encoded (visible encoded)
    then record { accepted = true; errno = success; out = decoded true (visible encoded) }
    else record { accepted = false; errno = uri_port_sym; out = encoded })
percent_decode_verdict_example = percent_decode_verdict encoded true unknown

raw_decode-encode_all_example :
    raw_decode (encode_all (0xC3 ∷ 0xA9 ∷ []) ++ codes "/") ≡ 0xC3 ∷ 0xA9 ∷ raw_decode (codes "/")
raw_decode-encode_all_example =
    raw_decode-encode_all (0xC3 ∷ 0xA9 ∷ []) (codes "/") (omega arith, (omega arith, tt))

path_normalize_absolute_example :
    (out : Bytes) × (path_normalize (codes "/a/../../b") ≡ some (b'/' ∷ out)) × (length out ≤ 9)
path_normalize_absolute_example = path_normalize_absolute (codes "a/../../b")

abbrev calls : List Call
calls =
    register (codes "http") (pos 8080)
    ∷ register (codes "foo") (pos 7)
    ∷ deregister (codes "foo")
    ∷ []

find_port-run_example :
    find_port (codes "foo") (run calls []) ≡ find (codes "foo") scheme_port_dictionary
find_port-run_example = find_port-run calls (codes "foo")

ipv6_address-DoubleColon_example : DoubleColon (codes "::ffff:1.2.3.4")
ipv6_address-DoubleColon_example = ipv6_address-DoubleColon (codes "::ffff:1.2.3.4") 8 refl (
    unfold ipv6_address dec dec_loop dec_step dec_state_5 dec_state_4 dec_state_3 dec_end hex
      hex_loop hex_step hex_end is_hexdig is_digit hexdig digit in
    refl)

parse-Bounded_example :
    Bounded (codes "http://a//b") (parse [] (codes "http://a//b") (some empty) unknown)
parse-Bounded_example = parse-Bounded [] (codes "http://a//b") (some empty) unknown

abbrev outcome : String → Parsed
outcome text = parse [] (codes text) (some empty) unknown

abbrev plain : Uri
plain = record empty {
  scheme = codes "HTTP";
  host = codes "h";
  path = codes "/a";
  query = codes "q";
  has_auth = true;
}

-- A whole URI: case and dots are normalized, a reserved character stays encoded.
parse_whole :
    outcome "http://me@Ex.org:8080/a/./b/../c%2F%64?q#f"
    ≡ done (record {
      current_idx = 41;
      result = some (record {
        scheme = codes "http";
        userinfo = codes "me";
        host = codes "ex.org";
        path = codes "/a/c%2Fd";
        query = codes "q";
        fragment = codes "f";
        port = pos 8080;
        has_auth = true;
        has_default_port = false;
      });
      errno = success;
    })
unfolding parse parse_uri parse_scheme parse_hier_part parse_path path_segments path_from path_loop
    parse_query parse_fragment post_parse parse_authority scan mark split host_and_port parse_parts
    parse_userinfo parse_host parse_port stoi count_while pchar path_normalize walk step slash leave
    find_port default_port find scheme_port_dictionary bytes_eq percent_decode decode_loop
    decode_step pair_output pair_value reserved gen_delims sub_delims unreserved is_alpha is_hexdig
    is_digit is_space tolower toupper alpha hexdig digit parse_ip_literal
parse_whole = refl

-- A written port behind a scheme that is not in the dictionary.
parse_unknown_port : outcome "foo://h:80" ≡ fault
unfolding parse parse_uri parse_scheme parse_hier_part parse_path path_segments path_from path_loop
    parse_query parse_fragment post_parse parse_authority scan mark split host_and_port parse_parts
    parse_userinfo parse_host parse_port stoi count_while pchar path_normalize walk step slash leave
    find_port default_port find scheme_port_dictionary bytes_eq percent_decode decode_loop
    decode_step pair_output pair_value reserved gen_delims sub_delims unreserved is_alpha is_hexdig
    is_digit is_space tolower toupper alpha hexdig digit parse_ip_literal
parse_unknown_port = refl
