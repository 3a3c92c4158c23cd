-- ===== src/NamevalueSaver/Crash.antt =====
-- What a load finds after a save that ended anywhere.
use frame_work.Prelude.{
  ℕ, zero, suc, ◌≡◌, ◌⊎◌, inl, inr, refl, sym, ap, ◌∙◌, subst, List, [], ◌∷◌, ◌++◌, Option, none,
  some, length, take, drop, append_assoc, append-nil,
}
use frame_work.NamevalueSaver.{Disk, step, run, write_steps, save, recover}

abbrev pub joined : List (List ℕ) → List ℕ
joined [] = []
joined (line ∷ lines) = line ++ joined lines

-- The file is the one before, or has the new text, or the one before has been copied over the new
-- text, and there are no other files.
pub record Recovers (before : Option (List ℕ)) (text : List ℕ) (d : Disk) : Type 0 where
  pub no_old : d.old ≡ none
  pub no_tmp : d.tmp ≡ none
  pub outcome :
      (d.file ≡ before)
      ⊎ ((d.file ≡ some text)
          ⊎ ((old : List ℕ) × (before ≡ some old)
              × (d.file ≡ some (old ++ drop (length old) text))))

drop_nil : (n : ℕ) → ◌≡◌ {A = List ℕ} (drop n []) []
drop_nil zero = refl
drop_nil (suc n) = refl

abbrev writing : Option (List ℕ) → List ℕ → Disk
writing before done = record { file = none; old = before; tmp = some done }

untouched :
    (before : Option (List ℕ)) (text : List ℕ) (tmp : Option (List ℕ))
    → Recovers before text (recover 0 (record { file = none; old = before; tmp = tmp }))
unfolding recover
untouched none text tmp = record { no_old = refl; no_tmp = refl; outcome = inl refl }
untouched (some old) text tmp = record {
  no_old = refl;
  no_tmp = refl;
  outcome = inl (ap some (ap (λ t. old ++ t) (drop_nil (length old)) ∙ append-nil old));
}

writing-Recovers :
    (before : Option (List ℕ)) (k : ℕ) (done : List ℕ) (lines : List (List ℕ))
    → Recovers before
        (done ++ joined lines)
        (recover 0 (run (writing before done) (take k (write_steps lines))))
unfolding run step recover
writing-Recovers before zero done lines = untouched before (done ++ joined lines) (some done)
writing-Recovers before (suc k) done (line ∷ lines) =
    subst
      (λ t.
        Recovers before t
          (recover 0 (run (writing before (done ++ line)) (take k (write_steps lines)))))
      (append_assoc done line (joined lines)) (writing-Recovers before k (done ++ line) lines)
writing-Recovers none (suc zero) done [] = record {
  no_old = refl;
  no_tmp = refl;
  outcome = inr (inl (ap some (sym (append-nil done))));
}
writing-Recovers (some old) (suc zero) done [] = record {
  no_old = refl;
  no_tmp = refl;
  outcome =
      inr (inr (old, refl, ap (λ t. some (old ++ drop (length old) t)) (sym (append-nil done))));
}
writing-Recovers before (suc (suc zero)) done [] = record {
  no_old = refl;
  no_tmp = refl;
  outcome = inr (inl (ap some (sym (append-nil done))));
}
writing-Recovers before (suc (suc (suc k))) done [] = record {
  no_old = refl;
  no_tmp = refl;
  outcome = inr (inl (ap some (sym (append-nil done))));
}

-- Where save starts without an old or a tmp file and the program ends before any of its calls on
-- the disk, or after the last, a load that copies from the start of the old file leaves no such
-- file, and as its file the one before, or the new text, or the one before followed by what the
-- new text has beyond its length.
pub save-Recovers :
    (before : Option (List ℕ)) (lines : List (List ℕ)) (k : ℕ)
    → Recovers before
        (joined lines)
        (recover 0 (run (record { file = before; old = none; tmp = none }) (take k (save lines))))
unfolding save run step recover
save-Recovers before lines zero = record { no_old = refl; no_tmp = refl; outcome = inl refl }
save-Recovers none lines (suc zero) = untouched none (joined lines) none
save-Recovers (some old) lines (suc zero) = untouched (some old) (joined lines) none
save-Recovers none lines (suc (suc k)) = writing-Recovers none k [] lines
save-Recovers (some old) lines (suc (suc k)) = writing-Recovers (some old) k [] lines
