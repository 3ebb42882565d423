-- ===== src/Client/RunId.antt =====
-- The run id that a client keeps in a file: `load_or_create_run_id` and `resolve_run_id_path` of
-- crates/rfrpc/src/client.rs. Texts are lists of code points; the file is its text, if it can be read.
pub mod Again
use rfrpv.Prelude.{Bool, not, ◌&&◌, Option, none, some, if◌then◌else◌, leb, is_empty}
use rfrpv.Constants.{max_run_id_len}
use rfrpv.Text.{Chars, trim, utf8_len}

-- The path that is used: the default one for a setting that is missing or blank.
unfoldable pub resolve_run_id_path : Chars → Option Chars → Chars
resolve_run_id_path default_path none = default_path
resolve_run_id_path default_path (some p) = if is_empty (trim p) then default_path else p

abbrev pub is_kept : (Chars → Bool) → Chars → Bool
is_kept is_uuid s = not (is_empty s) && leb (utf8_len s) max_run_id_len && is_uuid s

-- A new run id, and the file, if it can be created.
abbrev pub create_run_id : Option Chars → Chars → Bool → Chars × Option Chars
create_run_id file fresh created = (fresh, if created then some fresh else file)

-- The run id and the file, from the file, a fresh UUID, and whether the file can be created.
unfoldable pub load_or_create_run_id :
    (Chars → Bool) → Option Chars → Chars → Bool → Chars × Option Chars
load_or_create_run_id is_uuid none fresh created = create_run_id none fresh created
load_or_create_run_id is_uuid (some text) fresh created =
    if is_kept is_uuid (trim text)
    then (trim text, some text)
    else create_run_id (some text) fresh created
