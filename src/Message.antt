-- ===== src/Message.antt =====
-- runtime/message.rs: message identifiers, authors, contents and messages.
use ferris_agent_bridge.Base.{
  ℕ, Bool, true, false, ◌&&◌, ◌≡◌, ◌↔◌, Option, none, some, Result, ok, ◌>>=◌, ◌>>◌, fail_if,
  PartialEq, ◌==◌, eq_iff, arith, option_partial_eq, nat_partial_eq, eq_refl, ap,
}
use ferris_agent_bridge.Base.Text.{Text, text_partial_eq}
use ferris_agent_bridge.Ids.{is_blank}
use ferris_agent_bridge.Session.{SessionId}

abbrev pub MessageId : Type 0
MessageId = Text

pub data Error : Type 0 where
  message_id_empty text_empty markdown_empty : Error

unfoldable pub new_id : Text → Result Error MessageId
new_id value = do fail_if (is_blank value) message_id_empty; ok value

pub data MessageAuthor : Type 0 where
  user agent system : MessageAuthor

abbrev author_eq : MessageAuthor → MessageAuthor → Bool
author_eq user user = true
author_eq agent agent = true
author_eq system system = true
author_eq _ _ = false

pub author_eq_iff : (a b : MessageAuthor) → (author_eq a b ≡ true) ↔ (a ≡ b)
author_eq_iff a b = (λ h. ground arith, λ h. ground arith)

instance abbrev pub author_partial_eq : PartialEq MessageAuthor
author_partial_eq = record { eq = author_eq; eq_iff = author_eq_iff }

pub data MessageContent : Type 0 where
  text markdown : Text → MessageContent

abbrev content_eq : MessageContent → MessageContent → Bool
content_eq (text a) (text b) = a == b
content_eq (text a) (markdown b) = false
content_eq (markdown a) (text b) = false
content_eq (markdown a) (markdown b) = a == b

pub content_eq_iff : (a b : MessageContent) → (content_eq a b ≡ true) ↔ (a ≡ b)
content_eq_iff (text a) (text b) = (λ h. ap text ((eq_iff a b).0 h), λ h. (eq_iff a b).1 (cc))
content_eq_iff (text a) (markdown b) = (λ h. cc, λ h. cc)
content_eq_iff (markdown a) (text b) = (λ h. cc, λ h. cc)
content_eq_iff (markdown a) (markdown b) =
    (λ h. ap markdown ((eq_iff a b).0 h), λ h. (eq_iff a b).1 (cc))

instance abbrev pub content_partial_eq : PartialEq MessageContent
content_partial_eq = record { eq = content_eq; eq_iff = content_eq_iff }

-- `MessageContent::text` and `MessageContent::markdown`.
unfoldable pub new_text : Text → Result Error MessageContent
new_text value = do fail_if (is_blank value) text_empty; ok (text value)

unfoldable pub new_markdown : Text → Result Error MessageContent
new_markdown value = do fail_if (is_blank value) markdown_empty; ok (markdown value)

unfoldable pub as_text : MessageContent → Option Text
as_text (text t) = some t
as_text (markdown m) = none

unfoldable pub as_markdown : MessageContent → Option Text
as_markdown (text t) = none
as_markdown (markdown m) = some m

pub record Message : Type 0 where
  pub id : MessageId
  pub session_id : Option SessionId
  pub author : MessageAuthor
  pub content : MessageContent
  pub created_at_unix : ℕ

abbrev message_eq : Message → Message → Bool
message_eq a b =
    a.id == b.id
    && a.session_id == b.session_id
    && a.author == b.author
    && a.content == b.content
    && a.created_at_unix == b.created_at_unix

module _ (a b : Message) where
  message_eq_sound : message_eq a b ≡ true → a ≡ b
  message_eq_sound h = ground (
    arith,
    eq_iff a.id b.id,
    eq_iff a.session_id b.session_id,
    author_eq_iff a.author b.author,
    content_eq_iff a.content b.content,
  )

  message_eq_complete : a ≡ b → message_eq a b ≡ true
  message_eq_complete h = rw h (
      simp (
        eq_refl b.id,
        eq_refl b.session_id,
        eq_refl b.author,
        eq_refl b.content,
        eq_refl b.created_at_unix,
      ))

pub message_eq_iff : (a b : Message) → (message_eq a b ≡ true) ↔ (a ≡ b)
message_eq_iff a b = (message_eq_sound a b, message_eq_complete a b)

instance abbrev pub message_partial_eq : PartialEq Message
message_partial_eq = record { eq = message_eq; eq_iff = message_eq_iff }

-- `Message::user_text`
unfoldable pub user_text : Text → Option SessionId → Text → ℕ → Result Error Message
unfolding new_id new_text
user_text id session_id value created_at_unix = do
  message_id ← new_id id
  content ← new_text value
  ok (record {
    id = message_id;
    session_id = session_id;
    author = user;
    content = content;
    created_at_unix = created_at_unix;
  })
