-- ===== src/SessionAccess/Command.antt =====
-- The attach command of src/session-access.ts is read back as it was meant.
use workflowd.Base.{
  ℕ, ◌≡◌, refl, sym, ap, ◌∙◌, inl, inr, Bool, true, false, not, ◌&&◌, Option, none, some, [], ◌∷◌,
  ◌++◌, arith, if◌then◌else◌, ◌==◌, Text, units, text_eq, Bool-cases,
}
use workflowd.SessionAccess.{
  SessionReference, SessionEndpoint, SessionAccess, SessionState, created, prompted, succeeded,
  available, unavailable, escape_quotes, shell_quote, render_attach_command, resolve,
}
use workflowd.SessionAccess.Shell.{bare, single, words, prepend}

append_assoc : (a b c : Text) → (a ++ b) ++ c ≡ a ++ (b ++ c)
append_assoc [] b c = refl
append_assoc (x ∷ a) b c = ap (λ t. x ∷ t) (append_assoc a b c)

append_nil : (a : Text) → a ++ [] ≡ a
append_nil [] = refl
append_nil (x ∷ a) = ap (λ t. x ∷ t) (append_nil a)

abbrev pub is_available : SessionAccess → Bool
is_available (available id command) = true
is_available (unavailable id reason) = false

abbrev pub has_ended : SessionState → Bool
has_ended created = false
has_ended prompted = false
has_ended succeeded = false
has_ended SessionState.failed = true
has_ended SessionState.superseded = true
has_ended SessionState.aborted = true
has_ended SessionState.expired = true

abbrev pub found : Option Bool → Bool
found none = false
found (some there) = there

plain_step :
    (word : Text) (c : ℕ) (t : Text)
    → (c == 39) ≡ false
    → words (single word) (c ∷ t) ≡ words (single (word ++ (c ∷ []))) t
unfolding words
plain_step word c t e =
    ap
      (λ b. elim b [
        | true ↦ words (bare (some word)) t
        | false ↦ words (single (word ++ (c ∷ []))) t
      ])
      e

-- A quoted value is read as the value, whatever characters it has.
words-escape_quotes :
    (word value rest : Text)
    → words (single word) (escape_quotes value ++ (39 ∷ rest))
      ≡ words (bare (some (word ++ value))) rest
unfolding words escape_quotes
words-escape_quotes word [] rest = ap (λ t. words (bare (some t)) rest) (sym (append_nil word))
words-escape_quotes word (c ∷ value) rest =
    let step : Bool → Text =
      λ b. if b then 39 ∷ 34 ∷ 39 ∷ 34 ∷ 39 ∷ escape_quotes value else c ∷ escape_quotes value in
    let joined : (word ++ (c ∷ [])) ++ value ≡ word ++ (c ∷ value) =
      append_assoc word (c ∷ []) value in
    elim (Bool-cases (c == 39)) [
      | inl e ↦
          let same : c ≡ 39 = ground arith in
          ap (λ b. words (single word) (step b ++ (39 ∷ rest))) e
          ∙ (words-escape_quotes (word ++ (39 ∷ [])) value rest
              ∙ ap (λ t. words (bare (some t)) rest)
                  (ap (λ x. (word ++ (x ∷ [])) ++ value) (sym same) ∙ joined))
      | inr e ↦
          ap (λ b. words (single word) (step b ++ (39 ∷ rest))) e
          ∙ (plain_step word c (escape_quotes value ++ (39 ∷ rest)) e
              ∙ (words-escape_quotes (word ++ (c ∷ [])) value rest
                  ∙ ap (λ t. words (bare (some t)) rest) joined))
    ]

-- The attach command is five words to a POSIX shell, whatever the URL and the session id: both
-- are single words with their own characters, so that neither can add or end a command.
pub words-render_attach_command :
    (attach_url : Text) (r : SessionReference)
    → words (bare none) (render_attach_command attach_url r)
      ≡ some (
          units "opencode2"
          ∷ units "--server"
          ∷ attach_url
          ∷ units "--session"
          ∷ r.native_session_id
          ∷ [])
unfolding render_attach_command shell_quote words
words-render_attach_command attach_url r =
    let session = r.native_session_id in
    let tail = 32 ∷ (units "--session" ++ (32 ∷ shell_quote session)) in
    ap (λ o. prepend (some (units "opencode2")) (prepend (some (units "--server")) o))
      (ap (words (single [])) (append_assoc (escape_quotes attach_url) (39 ∷ []) tail)
        ∙ (words-escape_quotes [] attach_url tail
            ∙ ap (λ o. prepend (some attach_url) (prepend (some (units "--session")) o))
                (words-escape_quotes [] session [])))

-- A session is available exactly where it is of this endpoint, has not ended, keeps its directory,
-- and both the directory and the session are found; a rejection counts as not found.
pub resolve_available :
    (endpoint : SessionEndpoint) (directory_exists : Text → Option Bool)
    (session_exists : Text → Text → Option Bool) (r : SessionReference)
    → is_available (resolve endpoint directory_exists session_exists r) ≡ (
        text_eq r.server_id endpoint.server_id
        && text_eq r.endpoint_alias endpoint.endpoint_alias
        && not (has_ended r.state)
        && not r.directory_cleanup_scheduled
        && found (directory_exists r.directory)
        && found (session_exists r.native_session_id r.directory))
unfolding resolve
resolve_available endpoint directory_exists session_exists r = ground arith
