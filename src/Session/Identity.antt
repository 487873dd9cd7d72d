-- ===== src/Session/Identity.antt =====
-- Session identifiers against their scopes, and the validity of a new session.
use ferris_agent_bridge.Base.{ℕ, ◌≡◌, ok, arith, eq_refl}
use ferris_agent_bridge.Base.Text.{Text, text_partial_eq}
use ferris_agent_bridge.Ids.Encoding.{IsBytes, encode-injective, encode-injective_end}
use ferris_agent_bridge.Session.{
  SessionScope, for_scope, new_scope, new, validate, encode_canonical_component,
}

-- The texts of a scope are bytes.
pub record IsScope (s : SessionScope) : Type 0 where
  pub platform : IsBytes s.platform
  pub scope : IsBytes s.scope

-- Two scopes get the same session id only if they are the same.
pub for_scope-injective :
    (s t : SessionScope) → IsScope s → IsScope t → for_scope s ≡ for_scope t → s ≡ t
unfolding for_scope
for_scope-injective s t h k e =
    let cut =
      encode-injective s.platform t.platform {rest = encode_canonical_component s.scope}
        {rest' = encode_canonical_component t.scope} h.platform k.platform (cc) in
    ground (arith, cut.0, encode-injective_end s.scope t.scope h.scope k.scope cut.1)

-- A session made at any time from a scope that `SessionScope::new` accepts is valid.
pub validate-new :
    (platform scope : Text) (s : SessionScope) (now : ℕ)
    → new_scope platform scope ≡ ok s
    → validate (new s now) ≡ ok tt
unfolding new validate new_scope
validate-new platform scope s now h = ground (arith, eq_refl (for_scope s))
