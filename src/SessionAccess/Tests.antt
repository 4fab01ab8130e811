-- ===== src/SessionAccess/Tests.antt =====
-- A session on concrete answers, and the theorems at it.
use workflowd.Base.{◌≡◌, true, false, not, ◌&&◌, none, some, [], ◌∷◌, units, text_eq}
use workflowd.SessionAccess.{
  prompted, SessionReference, SessionEndpoint, render_attach_command, resolve,
}
use workflowd.SessionAccess.Shell.{bare, words}
use workflowd.SessionAccess.Command.{
  is_available, has_ended, found, words-render_attach_command, resolve_available,
}

abbrev reference : SessionReference
reference = record {
  session_reference_id = units "ref-1";
  server_id = units "server-1";
  endpoint_alias = units "main";
  directory = units "/work";
  native_session_id = units "it's; rm -rf $HOME";
  state = prompted;
  directory_cleanup_scheduled = false;
}

abbrev endpoint : SessionEndpoint
endpoint = record {
  server_id = units "server-1";
  endpoint_alias = units "main";
  attach_url = units "http://localhost:4096";
}

words-render_attach_command_example :
    words (bare none) (render_attach_command (units "http://localhost:4096") reference)
    ≡ some (
        units "opencode2"
        ∷ units "--server"
        ∷ units "http://localhost:4096"
        ∷ units "--session"
        ∷ units "it's; rm -rf $HOME"
        ∷ [])
words-render_attach_command_example =
    words-render_attach_command (units "http://localhost:4096") reference

resolve_available_example :
    is_available (resolve endpoint (λ d. some true) (λ s d. none) reference) ≡ (
      text_eq (units "server-1") (units "server-1")
      && text_eq (units "main") (units "main")
      && not (has_ended prompted)
      && not false
      && found (some true)
      && found none)
resolve_available_example = resolve_available endpoint (λ d. some true) (λ s d. none) reference
