-- ===== src/Tests/Savers.antt =====
-- A save that ends before its last call, which removes the old file.
use frame_work.Prelude.{[], ◌∷◌, none, some, take}
use frame_work.NamevalueSaver.{recover, run, save}
use frame_work.NamevalueSaver.Crash.{Recovers, joined, save-Recovers}

save-Recovers_example :
    Recovers (some (97 ∷ 10 ∷ [])) (joined ((98 ∷ 10 ∷ []) ∷ (49 ∷ 10 ∷ []) ∷ [])) (
      recover 0 (
        run
          (record { file = some (97 ∷ 10 ∷ []); old = none; tmp = none })
          (take 5 (save ((98 ∷ 10 ∷ []) ∷ (49 ∷ 10 ∷ []) ∷ [])))))
save-Recovers_example = save-Recovers (some (97 ∷ 10 ∷ [])) ((98 ∷ 10 ∷ []) ∷ (49 ∷ 10 ∷ []) ∷ []) 5
