-- ===== src/Tasks/AlbumIndex/Tests.antt =====
-- A job that works, and one whose tables could not be cleared.
use picasu.Prelude.{List, ◌≡◌, refl, true, none, some, [], ◌∷◌, ℕ, ◌+◌}
use picasu.Tasks.AlbumIndex.{is_running, default_status, started, note_cancel}
use picasu.Tasks.AlbumIndex.System.{
  claimed, listed, dropped, working, Index, initial, set, claim, list, drop, spawn, flag, note, Run,
  here, next,
}
use picasu.Tasks.AlbumIndex.Jobs.{one_job}
use picasu.Tasks.AlbumIndex.Blocked.{failed_start_blocks}
use picasu.Model.Text.{Text, text_eq, starts_with}
use picasu.Process.DirAlbum.{
  PathBuf, normal, path_eq, component_eq, components, join, is_absolute, body, segments,
}
use picasu.Process.DirAlbum.Cache.{lies_under, strip_prefix}
use picasu.Model.Text.Trim.{trim, trim_start, trim_end}
use picasu.Auth.Users.{ok}
use picasu.Tasks.AlbumIndex.Roots.{
  is_inside_internal_subtree, checked_roots, resolve_scan_roots, relative_roots, is_selector,
  trim_start_slash,
}

abbrev after_claim : Index
after_claim = record initial {
  next_job_id = initial.next_job_id + 1;
  slot = record { job_id = initial.next_job_id; status = started 50 [] };
  phase = set initial.next_job_id claimed initial.phase;
}

abbrev after_list : Index
after_list = record after_claim { active = some 1; phase = set 1 listed after_claim.phase }

abbrev at_work : Index
at_work = record after_list { phase = set 1 working after_list.phase }

abbrev blocked : Index
blocked = record after_list { phase = set 1 dropped after_list.phase }

to_list : Run initial after_list
unfolding initial default_status
to_list = next (next here (claim initial 50 [] refl)) (list after_claim 1 refl)

worked : Run initial at_work
unfolding initial
worked = next to_list (spawn after_list 1 refl)

one_job_example :
    (◌≡◌ {A = ℕ} 1 1)
    × (at_work.slot.job_id ≡ 1)
    × (is_running at_work.slot.status.state ≡ true)
    × (at_work.active ≡ some 1)
one_job_example = one_job 1 1 worked refl refl

stopped : Run initial blocked
unfolding initial
stopped = next to_list (drop after_list 1 refl)

abbrev flagged : Index
flagged = record blocked { cancel = set 1 true blocked.cancel }

abbrev noted : Index
noted = record flagged { slot = note_cancel 1 flagged.slot }

canceled_in_vain : Run blocked noted
unfolding initial
canceled_in_vain = next (next here (flag blocked 1 refl)) (note flagged 1 refl)

failed_start_blocks_example :
    (is_running noted.slot.status.state ≡ true)
    × (noted.slot.job_id ≡ 1)
    × (noted.phase 1 ≡ dropped)
failed_start_blocks_example = failed_start_blocks 1 stopped refl canceled_in_vain

-- The selector `/cats`, which is a directory of the image home.
abbrev images : PathBuf
images = normal (105 ∷ []) ∷ []

abbrev cats : Text
cats = 99 ∷ 97 ∷ 116 ∷ 115 ∷ []

abbrev cats_dir : PathBuf
cats_dir = normal (105 ∷ []) ∷ normal cats ∷ []

abbrev internal : List PathBuf
internal = (normal (100 ∷ []) ∷ []) ∷ []

finds_cats :
    checked_roots (path_eq cats_dir) images none (47 ∷ cats) none internal ≡ ok (cats_dir ∷ [])
unfolding checked_roots resolve_scan_roots relative_roots is_selector is_inside_internal_subtree
    trim_start_slash path_eq component_eq text_eq components trim trim_end trim_start join
    is_absolute starts_with body segments lies_under strip_prefix
finds_cats = refl
