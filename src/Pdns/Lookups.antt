-- ===== src/Pdns/Lookups.antt =====
-- The lines that ask for a lookup, and what the request loop writes for one.
use polaris_gslb.Prelude.{
  ◌⊎◌, inl, inr, ◌≡◌, refl, ap, String, false, Option, some, List, [], ◌∷◌, ◌++◌,
}
use polaris_gslb.Prelude.Eq.{◌==◌, string_eq}
use polaris_gslb.Prelude.Result.{Exception, ok}
use polaris_gslb.Topology.{IpParser}
use polaris_gslb.Pdns.{Config, Server}
use polaris_gslb.Pdns.Answers.{Params, do_lookup}
use polaris_gslb.Pdns.Backend.{
  Parameters, Request, Json, Response, Pass, goes_on, returned, crashed, write_response,
  lookup_handler, get_method, after_method, execute, dispatch, pass, reset,
}
use polaris_gslb.Pdns.Loop.{Event, line, update, reading, main_loop, updated}

-- The line asks for a lookup with these parameters.
pub record IsLookup (json : Json) (params : Params) (l : String) : Type 0 where
  pub full : (l == "") ≡ false
  pub request : Request
  pub parameters : Parameters
  pub parses : json l ≡ some request
  pub has_method : request.method ≡ some "lookup"
  pub has_parameters : request.parameters ≡ some parameters
  pub has_qname : parameters.qname ≡ some params.qname
  pub has_qtype : parameters.qtype ≡ some params.qtype
  pub has_remote : parameters.remote ≡ some params.remote

Pass-cases :
    (q : Pass)
    → ((r : Response) × (s : Server) × (q ≡ goes_on r s))
      ⊎ ((o : Option Response) × (s : Server) × (q ≡ returned o s))
      ⊎ ((e : Exception) × (s : Server) × (q ≡ crashed e s))
Pass-cases (goes_on r s) = inl (r, s, refl)
Pass-cases (returned o s) = inr (inl (o, s, refl))
Pass-cases (crashed e s) = inr (inr (e, s, refl))

module _ (parser : IpParser) (config : Config) (json : Json) where
  -- A lookup that returned is answered with its result.
  pub pass-lookup :
      (params : Params) (l : String) (s s' : Server)
      → IsLookup json params l
      → do_lookup parser config params (reset s) ≡ (ok tt, s')
      → pass parser config json l s ≡ goes_on (write_response config l s') s'
  unfolding pass dispatch execute get_method lookup_handler after_method
  pass-lookup params l s s' k e =
      rw (
        k.full, k.parses, k.has_method, k.has_parameters, k.has_qname, k.has_qtype, k.has_remote, e,
      )

  -- A line that comes when the loop is reading, and what is written for it, after all else.
  pub main_loop-line :
      (events : List Event) (l : String) (s s' : Server) (r : Response)
      → (main_loop parser config json events s).end ≡ reading
      → pass parser config json l (main_loop parser config json events s).server ≡ goes_on r s'
      → (main_loop parser config json (events ++ line l ∷ []) s).written
        ≡ (main_loop parser config json events s).written ++ r ∷ []
  unfolding main_loop
  main_loop-line [] l s s' r ended e = rw (e, main_loop) refl
  main_loop-line (update ts fetched ∷ events) l s s' r ended e =
      main_loop-line events l (updated ts fetched s) s' r ended e
  main_loop-line (line m ∷ events) l s s' r ended e =
      elim (Pass-cases (pass parser config json m s)) [
        | inl (r₁, s₁, went) ↦
            let ended₁ : (main_loop parser config json events s₁).end ≡ reading =
              rw (went, main_loop) at ended in
            rw (went, main_loop)
              (ap (λ rs. r₁ ∷ rs)
                (main_loop-line events l s₁ s' r ended₁ (rw (went, main_loop) at e)))
        | inr (inl (o, s₁, went)) ↦ absurd (cc (rw (went, main_loop) at ended))
        | inr (inr (x, s₁, went)) ↦ absurd (cc (rw (went, main_loop) at ended))
      ]
