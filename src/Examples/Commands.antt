-- ===== src/Examples/Commands.antt =====
-- The theorems on the start and the commands, applied to small inputs.
use Prim.Native.String.{◌++◌ as str_append}
use jonedrive.Prelude.{
  ◌≡◌, ◌*◌, ◌^◌, refl, true, false, none, some, List, [], ◌∷◌, arith, eq_iff, ret, panic, Returns,
  ◌>>=◌, every,
}
use jonedrive.Graph.Item.{DriveItem, empty_item}
use jonedrive.Graph.Remote.{answer, no_response}
use jonedrive.Graph.Http.{Drive}
use jonedrive.Inode.{new_inode_drive_item, parent_id}
use jonedrive.Content.{new_loopback_cache, get, is_open, has_content}
use jonedrive.Content.Laws.{IsValid, new_loopback_cache-IsValid}
use jonedrive.Content.View.{
  Op, put, drop, rename, open_at, shut, run, view_run, view_of, read_view, seen_content,
}
use jonedrive.Content.Refines.{run-refines}
use jonedrive.Fs.Ids.{get_node_id}
use jonedrive.Fs.Ids.Registry.{IsRegistry}
use jonedrive.Ops.Stat.{StatfsOut, stat_reply}
use jonedrive.Ops.Stat.Bounds.{IsReported, or_pretended, stat_reply-IsReported}
use jonedrive.Start.{CacheDir, root_of, start_tree, start_state, new_filesystem}
use jonedrive.Start.Root.{root_is_first}
use jonedrive.Start.Offline.{start_refused}
use jonedrive.App.Systemd.{untemplate_unit, template_unit, untemplated}
use jonedrive.App.Systemd.Names.{untemplate_unit-template_unit}
use jonedrive.App.Volume.{get_volume_name, template_volume}
use jonedrive.App.Volume.Names.{get_volume_name-template_volume}
use jonedrive.Examples.{server}

abbrev calls : List Op
calls = put "a" (1 ∷ 2 ∷ []) ∷ open_at false "b" ∷ rename "a" "b" ∷ drop "a" ∷ shut "b" ∷ []

run-refines_example :
    IsValid (run calls new_loopback_cache)
    × (get (run calls new_loopback_cache) "b"
        ≡ read_view (view_run calls (view_of new_loopback_cache)) "b")
    × (is_open (run calls new_loopback_cache) "b"
        ≡ (view_run calls (view_of new_loopback_cache)).opened "b")
    × (has_content (run calls new_loopback_cache) "b"
        ≡ seen_content (view_run calls (view_of new_loopback_cache)) "b")
run-refines_example = run-refines new_loopback_cache new_loopback_cache-IsValid calls "b"

abbrev root_item : DriveItem
root_item = record empty_item { id = "root-id"; name = "root" }

-- A cache directory that a run before did not write to.
abbrev new_dir : CacheDir
new_dir = record {
  made = true;
  opens = true;
  content = new_loopback_cache;
  old_content = none;
  metadata = [];
  delta_link = none;
  uploads = [];
}

root_is_first_example :
    Returns
      ((root_of server (answer root_item) >>= start_tree server) (start_state new_dir "token"))
      (λ _ s.
        (s.root ≡ "root-id")
        × (get_node_id 1 s ≡ ret (some 0) s)
        × ((s.inode 0).item ≡ root_item)
        × IsRegistry s)
unfolding new_inode_drive_item parent_id
root_is_first_example =
    root_is_first server new_dir "token" root_item refl (ground (arith, eq_iff "root-id" ""))

start_refused_example : new_filesystem server new_dir ".Trash-1000" "token" ≡ panic
start_refused_example =
    start_refused server new_dir ".Trash-1000" "token" (no_response "timeout") refl
      (ground (arith, eq_iff "token" "")) (ground arith)

abbrev full_drive : Drive
full_drive = record {
  id = "d";
  drive_type = "personal";
  quota = record {
    deleted = 0;
    file_count = 100001;
    remaining = 4095;
    state = "critical";
    total = 5368709120;
    used = 5368705025;
  };
}

stat_reply-IsReported_example :
    (out : StatfsOut) × (stat_reply (answer full_drive) ≡ some out)
    × IsReported
        (or_pretended (5 * 2 ^ 40) (λ q. q.total) full_drive)
        (or_pretended (5 * 2 ^ 40) (λ q. q.remaining) full_drive)
        (or_pretended 0 (λ q. q.file_count) full_drive)
        out
stat_reply-IsReported_example = stat_reply-IsReported full_drive (omega arith) (omega arith)

untemplate_unit-template_unit_example :
    untemplate_unit
      (template_unit (str_append "onedriver" (str_append "@." "service")) "home-me-OneDrive")
    ≡ untemplated "home-me-OneDrive"
unfolding every
untemplate_unit-template_unit_example =
    untemplate_unit-template_unit "onedriver" "home-me-OneDrive" "service" refl refl

get_volume_name-template_volume_example :
    get_volume_name (some (template_volume true "me@example.org")) ≡ some "me@example.org"
unfolding every
get_volume_name-template_volume_example = get_volume_name-template_volume true "me@example.org" refl
