-- ===== src/SessionAccess.antt =====
-- src/session-access.ts: whether a session can be attached to, and the command that does it. What
-- `directoryExists` and `sessionExists` answer are parameters, `none` being a rejected promise or
-- a failed effect.
pub mod Shell
pub mod Command
mod Tests
use workflowd.Base.{
  ℕ, Bool, true, false, not, ◌&&◌, ◌||◌, Option, none, some, List, [], ◌∷◌, ◌++◌, if◌then◌else◌,
  ◌==◌, Text, units, text_eq,
}

pub data SessionState : Type 0 where
  created prompted succeeded failed superseded aborted expired : SessionState

pub record SessionReference : Type 0 where
  pub session_reference_id : Text
  pub server_id : Text
  pub endpoint_alias : Text
  pub directory : Text
  pub native_session_id : Text
  pub state : SessionState
  pub directory_cleanup_scheduled : Bool

pub record SessionEndpoint : Type 0 where
  pub server_id : Text
  pub endpoint_alias : Text
  pub attach_url : Text

pub data Reason : Type 0 where
  missing expired aborted failed superseded : Reason
  endpoint_mismatch directory_missing unreachable : Reason

pub data SessionAccess : Type 0 where
  available : Text → Text → SessionAccess
  unavailable : Text → Reason → SessionAccess

-- `replaceAll("'", "'\"'\"'")`.
pub escape_quotes : Text → Text
escape_quotes [] = []
escape_quotes (c ∷ t) =
    let rest = escape_quotes t in if c == 39 then units "'\"'\"'" ++ rest else c ∷ rest

pub shell_quote : Text → Text
unfolding escape_quotes
shell_quote value = 39 ∷ (escape_quotes value ++ (39 ∷ []))

abbrev join : List Text → Text
join [] = []
join (t ∷ []) = t
join (t ∷ u ∷ us) = t ++ (32 ∷ join (u ∷ us))

pub render_attach_command : Text → SessionReference → Text
unfolding shell_quote
render_attach_command attach_url reference = join (
    units "opencode2"
    ∷ units "--server"
    ∷ shell_quote attach_url
    ∷ units "--session"
    ∷ shell_quote reference.native_session_id
    ∷ [])

-- The states that are reasons.
abbrev pub ended : SessionState → Option Reason
ended SessionState.failed = some failed
ended SessionState.superseded = some superseded
ended SessionState.aborted = some aborted
ended SessionState.expired = some expired
ended _ = none

abbrev pub session_answer : SessionEndpoint → SessionReference → Option Bool → SessionAccess
session_answer endpoint r none = unavailable r.session_reference_id unreachable
session_answer endpoint r (some false) = unavailable r.session_reference_id missing
session_answer endpoint r (some true) =
    available r.session_reference_id (render_attach_command endpoint.attach_url r)

-- A rejection counts as a directory that is not there.
abbrev pub directory_there : Option Bool → Bool
directory_there none = false
directory_there (some there) = there

pub resolve :
    SessionEndpoint
    → (Text → Option Bool)
    → (Text → Text → Option Bool)
    → SessionReference
    → SessionAccess
resolve endpoint directory_exists session_exists r =
    if not (text_eq r.server_id endpoint.server_id)
      || not (text_eq r.endpoint_alias endpoint.endpoint_alias)
    then unavailable r.session_reference_id endpoint_mismatch
    else elim (ended r.state) [
      | some reason ↦ unavailable r.session_reference_id reason
      | none ↦
          if r.directory_cleanup_scheduled
          then unavailable r.session_reference_id directory_missing
          else (if directory_there (directory_exists r.directory)
              then session_answer endpoint r (session_exists r.native_session_id r.directory)
              else unavailable r.session_reference_id directory_missing)
    ]
