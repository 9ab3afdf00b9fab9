-- ===== src/Examples/Requests.antt =====
-- The request loop on the small site.
use polaris_gslb.Prelude.{
  ◌≡◌, refl, none, some, List, [], ◌∷◌, length, lower, rstrip_dots, if◌then◌else◌,
}
use polaris_gslb.Prelude.Eq.{◌==◌, string_eq}
use polaris_gslb.Published.{DistState}
use polaris_gslb.Pdns.{Server, refused, no_globalname}
use polaris_gslb.Prelude.Dict.{lookup, contains, map_values}
use polaris_gslb.State.{to_dist_dict}
use polaris_gslb.Pdns.Backend.{
  Request, Json, pass, dispatch, execute, get_method, lookup_handler, after_method,
}
use polaris_gslb.Pdns.Loop.{Event, line, update, reading, main_loop}
use polaris_gslb.Pdns.Service.{IsRequest, main_loop-serves}
use polaris_gslb.Examples.{parser, config, published}

-- A lookup with its parameters, and a method that does not exist.
abbrev lookup_request : Request
lookup_request = record {
  method = some "lookup";
  parameters = some (record { qname = some "www.test.org."; qtype = some "A"; remote = some "?" });
}

abbrev strange_request : Request
strange_request = record { method = some "reboot"; parameters = none }

abbrev json : Json
json l =
    if l == "lookup"
    then some lookup_request
    else if l == "reboot"
    then some strange_request
    else none

abbrev empty : Server
empty = record { result = refused; log = []; state = none; state_ts = 0 }

-- A lookup before the first update, an update, a lookup from an address that does not parse, and a
-- method that does not exist.
abbrev events : List Event
events = line "lookup" ∷ update (some 5000) (some published) ∷ line "lookup" ∷ line "reboot" ∷ []

lookup_line : IsRequest parser config json "lookup"
lookup_line = record {
  full = refl;
  request = lookup_request;
  method = "lookup";
  parses = refl;
  has_method = refl;
}

reboot_line : IsRequest parser config json "reboot"
reboot_line = record {
  full = refl;
  request = strange_request;
  method = "reboot";
  parses = refl;
  has_method = refl;
}

-- Also a state that is not ready is fetched.
abbrev odd : DistState
odd = record published { pools = [] }

main_loop-serves_example :
    ((main_loop parser config json (update (some 7) (some odd) ∷ events) empty).end ≡ reading)
    × (length (main_loop parser config json (update (some 7) (some odd) ∷ events) empty).written
        ≡ 3)
main_loop-serves_example =
    main_loop-serves parser config json (update (some 7) (some odd) ∷ events) empty
      (lookup_line, (lookup_line, (reboot_line, tt)))

-- A lookup of a name that is not there is refused also without `qtype` and `remote`.
abbrev untyped : Json
untyped l = some (record {
  method = some "lookup";
  parameters = some (record { qname = some "no.test.org."; qtype = none; remote = none });
})

untyped_refused :
    (main_loop parser config untyped
      (line "lookup" ∷ [])
      (record empty { state = some published })).server.log
    ≡ no_globalname "no.test.org" ∷ []
unfolding main_loop pass dispatch execute get_method lookup_handler after_method contains lookup
    to_dist_dict map_values lower rstrip_dots
untyped_refused = refl
