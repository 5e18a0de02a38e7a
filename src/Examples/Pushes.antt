-- ===== src/Examples/Pushes.antt =====
-- gate.py on a push whose content one trustworthy review covers, and on a push with an open finding.
use skodun.Prelude.{ℕ, ◌≡◌, refl, ◌↔◌, ◌⊎◌, true, false, none, some, [], ◌∷◌}
use skodun.Prelude.Text.{codes}
use skodun.Prelude.Int.{pos}
use skodun.Json.{str, int, bool, arr, obj, Fields, end, field, Items, nil, cons}
use skodun.Triage.Result.{ok, unexpected}
use skodun.Gate.Decide.{IndexRow, Outside, newest}
use skodun.Gate.Record.{Store, run_gate}
use skodun.Gate.Outcomes.{Passes, run_gate_iff}
use skodun.Gate.Recorded.{IsLogged, IsRefused, run_gate-IsKept}
use skodun.Gate.Open.{HasOpen, run_gate-HasOpen}
use skodun.Gate.Latest.{IsAnswer, newest-IsAnswer}
use skodun.Examples.Host.{ascii}

abbrev leak : Fields
leak = field (codes "file") (str (codes "b.py")) (field (codes "title") (str (codes "leak")) end)

abbrev pub record_with : Items → ℕ → Fields
record_with findings total = field (codes "id") (str (codes "r1")) (
    field (codes "branch") (str (codes "main")) (
      field (codes "base_sha") (str (codes "b1")) (
        field (codes "findings") (arr findings) (
          field (codes "findings_total") (int (pos total)) (
            field (codes "parse_ok") (bool true) (
              field (codes "degraded") (bool false) (
                field (codes "diff_truncated") (bool false) (
                  field (codes "trustworthy") (bool true)
                    (field (codes "diff_hash") (str (codes "+x")) end)))))))))

abbrev row_of : Fields → IndexRow
row_of rec = record {
  diff_hash = codes "+x";
  trustworthy = true;
  reviewed_at = some (codes "2026-07-28T12:00:00Z");
  artifact = some (obj rec);
}

abbrev older : IndexRow
older = record (row_of (record_with nil 0)) { reviewed_at = none; artifact = none }

abbrev pub outside : Outside
outside = record {
  resolve_base = ok (record { sha = codes "b1"; warning = none });
  capture_diff = λ sha. ok (record { bytes = codes "+x\n"; truncated_untracked = false });
  blob_sha1 = λ bytes. bytes;
  current_branch = ok (codes "main");
  untracked_max = 10;
  str_problem = λ p. codes "problem";
  repr = λ e. codes "error";
  skip_variable = none;
  repo = codes "repo";
  now = codes "2026-07-28T12:30:00Z";
}

abbrev store_of : Fields → Store
store_of rec = record {
  rows = older ∷ row_of rec ∷ [];
  events = [];
  gate_events = [];
  log_fails = none;
}

abbrev clean : Store
clean = store_of (record_with nil 0)

abbrev leaking : Store
leaking = store_of (record_with (cons (obj leak) nil) 1)

clean_passes : (run_gate ascii outside clean).result.code ≡ 0
unfolding run_gate
clean_passes = refl

leaking_is_open : (run_gate ascii outside leaking).result.code ≡ 1
unfolding run_gate
leaking_is_open = refl

run_gate_iff_example :
    ((run_gate ascii outside clean).result.code ≡ 0)
    ↔ ((clean.log_fails ≡ none) × Passes ascii outside clean)
run_gate_iff_example = run_gate_iff ascii outside clean

run_gate-HasOpen_example : HasOpen ascii outside leaking
run_gate-HasOpen_example = run_gate-HasOpen ascii outside leaking leaking_is_open

abbrev broken : Store
broken = record leaking { log_fails = some (unexpected (codes "disk full")) }

run_gate-IsKept_example :
    IsLogged broken (run_gate ascii outside broken).store (run_gate ascii outside broken).result
    ⊎ IsRefused broken (run_gate ascii outside broken).store (run_gate ascii outside broken).result
run_gate-IsKept_example = run_gate-IsKept ascii outside broken

newest-IsAnswer_example : IsAnswer (codes "+x") clean.rows (newest (codes "+x") clean.rows)
newest-IsAnswer_example = newest-IsAnswer (codes "+x") clean.rows
