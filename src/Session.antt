-- ===== src/Session.antt =====
-- runtime/session.rs: session scopes, the identifiers derived from them, and session records.
-- `now` is what the source reads from `unix_seconds_now()`.
pub mod Identity
use ferris_agent_bridge.Base.{
  ℕ, max, Bool, true, false, ◌&&◌, not, ◌≡◌, ◌↔◌, List, [], ◌∷◌, ◌++◌, Result, ok, err, ◌>>=◌, ◌>>◌,
  fail_if, ltb, PartialEq, ◌==◌, eq_iff, arith,
}
use ferris_agent_bridge.Base.Text.{Text, codes, text_partial_eq}
use ferris_agent_bridge.Ids.{is_valid_id, is_blank, encode_canonical_component}

abbrev pub SessionId : Type 0
SessionId = Text

pub data Error : Type 0 where
  invalid_session_id platform_empty scope_empty id_mismatch updated_before_created : Error

-- `SessionId::new`
unfoldable pub new_session_id : Text → Result Error SessionId
new_session_id value = do fail_if (not (is_valid_id value)) invalid_session_id; ok value

pub record SessionScope : Type 0 where
  pub platform : Text
  pub scope : Text

unfoldable pub for_scope : SessionScope → SessionId
for_scope s =
    codes "session_v1_"
    ++ (encode_canonical_component s.platform ++ b'_' ∷ encode_canonical_component s.scope)

unfoldable pub validate_scope : SessionScope → Result Error (Unit {0})
validate_scope s = do
  fail_if (is_blank s.platform) platform_empty
  fail_if (is_blank s.scope) scope_empty

unfoldable pub new_scope : Text → Text → Result Error SessionScope
unfolding validate_scope
new_scope platform scope = do
  let s : SessionScope = record { platform = platform; scope = scope }
  validate_scope s
  ok s

abbrev scope_eq : SessionScope → SessionScope → Bool
scope_eq a b = a.platform == b.platform && a.scope == b.scope

pub scope_eq_iff : (a b : SessionScope) → (scope_eq a b ≡ true) ↔ (a ≡ b)
scope_eq_iff a b = (
  λ h. ground (arith, eq_iff a.platform b.platform, eq_iff a.scope b.scope),
  λ h. ground (arith, eq_iff a.platform b.platform, eq_iff a.scope b.scope),
)

instance abbrev pub scope_partial_eq : PartialEq SessionScope
scope_partial_eq = record { eq = scope_eq; eq_iff = scope_eq_iff }

pub record Session : Type 0 where
  pub id : SessionId
  pub scope : SessionScope
  pub created_at_unix : ℕ
  pub updated_at_unix : ℕ

unfoldable pub new : SessionScope → ℕ → Session
new scope now = record {
  id = for_scope scope;
  scope = scope;
  created_at_unix = now;
  updated_at_unix = now;
}

touch_at : Session → ℕ → Session
touch_at s t = record s { updated_at_unix = max s.updated_at_unix t }

unfoldable pub touch : Session → ℕ → Session
unfolding touch_at
touch s now = touch_at s now

-- The two `debug_assert_eq!` of the source, that the replacement has the same id and the same scope,
-- are not in the function: a release build leaves them out. State/Sessions is about them.
unfoldable pub refresh_from : Session → Session → Session
refresh_from s replacement = record s {
  updated_at_unix = max s.updated_at_unix replacement.updated_at_unix;
}

unfoldable pub validate : Session → Result Error (Unit {0})
unfolding validate_scope
validate s = do
  validate_scope s.scope
  fail_if (not (s.id == for_scope s.scope)) id_mismatch
  fail_if (ltb s.updated_at_unix s.created_at_unix) updated_before_created
