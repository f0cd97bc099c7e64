-- ===== src/Auth.antt =====
-- `ShareAuth` of crates/agent-share-proto/src/auth.rs: which requests a producer accepts, and how it
-- refuses the others.
use agent_share.Prelude.{
  ℕ, List, Bool, true, false, Option, none, some, take, length, ltb, if◌then◌else◌,
}
use agent_share.Authorship.{codes}
use agent_share.Framing.{secret_len, close_bad_secret, close_unauthorized}
use agent_share.Chunks.{TokenLibrary}

-- `MOUNT_TICKET_LABEL`
abbrev pub mount_ticket_label : List ℕ
mount_ticket_label = codes "agent-share/mount-ticket/v1"

abbrev pub is_some : Option (List ℕ) → Bool
is_some none = false
is_some (some password) = true

pub record ShareAuth : Type 0 where
  pub token : List ℕ
  pub password_protected : Bool

abbrev pub from_token : List ℕ → Bool → ShareAuth
from_token token password_protected = record {
  token = token;
  password_protected = password_protected;
}

module _ (library : TokenLibrary) where
  open library use {derive, ct_eq}

  unfoldable pub share_token : List ℕ → Option (List ℕ) → List ℕ
  share_token secret password = derive secret password mount_ticket_label

  -- `ShareAuth::new`
  unfoldable pub share_auth : List ℕ → Option (List ℕ) → ShareAuth
  unfolding share_token
  share_auth secret password = record {
    token = share_token secret password;
    password_protected = is_some password;
  }

  -- `presented.get(..SECRET_LEN)`
  unfoldable pub accepts : ShareAuth → List ℕ → Bool
  accepts auth presented =
      if ltb (length presented) secret_len
      then false
      else ct_eq (take secret_len presented) auth.token

unfoldable pub refusal_code : ShareAuth → ℕ
refusal_code auth = if auth.password_protected then close_unauthorized else close_bad_secret

unfoldable pub refusal_reason : ShareAuth → List ℕ
refusal_reason auth = if auth.password_protected then codes "unauthorized" else codes "bad secret"
