-- ===== src/Collector/Store/Batches.antt =====
-- Batching the statements changes nothing.
use cell_oee_demo.Prelude.{
  ℕ, ◌≡◌, refl, ◌∙◌, sym, ap, fun_ext, Option, none, some, List, [], ◌∷◌, ◌++◌, Bool-cases, inl,
  inr,
}
use cell_oee_demo.Oee.Types.{Instant}
use cell_oee_demo.Collector.Types.{Op}
use mathlib.Core.List.{append_assoc, append-nil}
use cell_oee_demo.Collector.Store.{
  Db, exec, exec_all, ◌>>=◌, is_run_type, op_type, exec_runs, apply, greatest,
}

pub >>=-assoc : (m : Option Db) (f g : Db → Option Db) → (m >>= f >>= g) ≡ (m >>= λ db. f db >>= g)
>>=-assoc none f g = refl
>>=-assoc (some db) f g = refl

pub exec_all-append :
    (db : Db) (a b : List Op) → exec_all db (a ++ b) ≡ (exec_all db a >>= λ db'. exec_all db' b)
unfolding exec_all
exec_all-append db [] b = refl
exec_all-append db (op ∷ a) b =
    ap (λ f. exec db op >>= f) (fun_ext λ db'. exec_all-append db' a b)
    ∙ sym (>>=-assoc (exec db op) (λ db'. exec_all db' a) (λ db'. exec_all db' b))

exec_runs-eq-exec_all :
    (db : Db) (run_type : Option ℕ) (run ops : List Op)
    → exec_runs db run_type run ops ≡ exec_all db (run ++ ops)
unfolding exec_runs
exec_runs-eq-exec_all db run_type run [] = rw append-nil refl
exec_runs-eq-exec_all db run_type run (op ∷ ops) = elim (Bool-cases (is_run_type run_type op)) [
  | inl e ↦ rw e (
      exec_runs-eq-exec_all db run_type (run ++ op ∷ []) ops
      ∙ ap (exec_all db) (append_assoc run (op ∷ []) ops))
  | inr e ↦ rw e (
      ap (λ f. exec_all db run >>= f)
        (fun_ext λ db'. exec_runs-eq-exec_all db' (some (op_type op)) (op ∷ []) ops)
      ∙ sym (exec_all-append db run (op ∷ ops)))
]

-- However the operations of a batch fall into runs of one kind, `apply` does to the tables what the
-- operations do one after another, and then raises `last_seen_ts` to the timestamp given, if that is
-- later; it fails exactly if one of them violates a constraint.
pub apply-eq-exec_all :
    (db : Db) (ops : List Op) (last_seen : Option Instant)
    → apply db ops last_seen ≡ (
        exec_all db ops >>= λ db'.
        some (record db' { last_seen_ts = greatest db'.last_seen_ts last_seen }))
unfolding apply
apply-eq-exec_all db ops last_seen = rw (exec_runs-eq-exec_all db none [] ops) refl
