-- ===== src/StaticFiles/Tests.antt =====
-- StaticFiles at a small directory.
use tudou.Prelude.{◌≡◌, refl, sym, subst, false, [], none, some, if◌then◌else◌, Text, text, text_eq}
use tudou.Http.Message.{HttpRequest, new_request, new_response}
use tudou.Http.Router.{dispatch}
use tudou.StaticFiles.{FileSystem, FileMeta, resolve_path, guess_content_type, new_static_router}
use tudou.StaticFiles.Confined.{Below, dispatch_confined}

abbrev small_meta : FileMeta
small_meta = record { mtime = 0; size = 5; is_dir = false }

-- One file, which is below the directory `www`.
abbrev small_files : FileSystem
small_files = record {
  stat = λ path. if text_eq path (text "www/a.txt") then some small_meta else none;
  open_file = λ path. if text_eq path (text "www/a.txt") then some 9 else none;
}

abbrev get_a : HttpRequest
get_a = record new_request { method = text "GET"; path = text "/a.txt" }

abbrev climb : HttpRequest
climb = record new_request { method = text "GET"; path = text "/../etc/passwd" }

-- There is a secret elsewhere, or not.
abbrev with_secret : FileSystem
with_secret = record {
  stat = λ path. if text_eq path (text "/secret") then some small_meta else small_files.stat path;
  open_file = λ path. if text_eq path (text "/secret") then some 8 else small_files.open_file path;
}

small_agree :
    (path : Text)
    → Below (text "www") path
    → (small_files.stat path ≡ with_secret.stat path)
      × (small_files.open_file path ≡ with_secret.open_file path)
unfolding text_eq
small_agree path below =
    subst
      (λ p.
        (small_files.stat p ≡ with_secret.stat p)
        × (small_files.open_file p ≡ with_secret.open_file p))
      (sym below.is_path) (refl, refl)

dispatch_confined_example :
    dispatch (new_static_router small_files (text "www") (λ mtime. [])) get_a new_response
    ≡ dispatch (new_static_router with_secret (text "www") (λ mtime. [])) get_a new_response
dispatch_confined_example =
    dispatch_confined (text "www") small_files with_secret small_agree (λ mtime. []) get_a
      new_response

forbids_climbing : resolve_path small_files (text "www") climb.path ≡ text "www/__forbidden__"
unfolding resolve_path
forbids_climbing = refl

guesses_a_type : guess_content_type (text "www/a.txt") ≡ text "text/plain; charset=utf-8"
unfolding guess_content_type text_eq
guesses_a_type = refl
