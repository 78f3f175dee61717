-- ===== src/Pending/Replay.antt =====
-- The replay of a journal: what it skips, and what a further record adds.
use yz_agent.Prelude.{
  ℕ, ◌≤◌, ◌<◌, ◌≡◌, refl, ap, ◌∙◌, Bool, List, [], ◌∷◌, ◌++◌, nat_eq, nat_beq_iff, Option, none,
  some, select, All, arith, Bool-cases, inl, inr,
}
use yz_agent.Pending.Delta.{apply_pending, ◌>>=◌}
use yz_agent.Pending.Disk.{
  PendingReportFile, PendingJournalRecord, Entry, temporary, foreign, named, put_entry,
  apply_record, replay_one, replay_journal,
}

pub bind_some {ℓ κ} :
    {A : Type ℓ} {B : Type κ} (m : Option A) (f : A → Option B) (b : B)
    → (m >>= f) ≡ some b
    → (a : A) × (m ≡ some a) × (f a ≡ some b)
bind_some none f b h = cc
bind_some (some a) f b h = (a, refl, h)

bind_return {ℓ} : {A : Type ℓ} (m : Option A) → (m >>= λ a. some a) ≡ m
bind_return none = refl
bind_return (some a) = refl

module _ {E : Type 0} where
  -- An entry that a replay has read, and whose number is not above the bound.
  abbrev pub IsRead : ℕ → Entry E → Type 0
  IsRead bound temporary = Unit {0}
  IsRead bound foreign = ⊥
  IsRead bound (named n none) = ⊥
  IsRead bound (named n (some r)) = (n ≡ r.sequence) × (n ≤ bound)

  apply_record-sequence :
      (f : PendingReportFile E) (r : PendingJournalRecord E) (g : PendingReportFile E)
      → apply_record f r ≡ some g
      → g.journal_sequence ≡ r.sequence
  unfolding apply_record
  apply_record-sequence f r g h =
      let (pending, one, rest) = bind_some (apply_pending f.pending r.pending) _ g h in
      ground (arith, rest)

  replay_one-IsRead :
      (e : Entry E) (f g : PendingReportFile E)
      → replay_one e f ≡ some g
      → (f.journal_sequence ≤ g.journal_sequence) × IsRead g.journal_sequence e
  unfolding replay_one
  replay_one-IsRead temporary f g h = ground (arith, h)
  replay_one-IsRead foreign f g h = cc
  replay_one-IsRead (named n none) f g h = cc
  replay_one-IsRead (named n (some r)) f g h =
      ground (arith, h, apply_record-sequence f r g, nat_beq_iff n r.sequence)

  IsRead-le : (e : Entry E) (m n : ℕ) → m ≤ n → IsRead m e → IsRead n e
  IsRead-le temporary m n l h = tt
  IsRead-le foreign m n l h = h
  IsRead-le (named k none) m n l h = h
  IsRead-le (named k (some r)) m n l (a, b) = (a, omega arith)

  pub IsRead-All :
      (entries : List (Entry E)) (m n : ℕ) → m ≤ n → All (IsRead m) entries → All (IsRead n) entries
  IsRead-All [] m n l h = tt
  IsRead-All (e ∷ entries) m n l (r, h) = (IsRead-le e m n l r, IsRead-All entries m n l h)

  pub replay_journal-IsRead :
      (entries : List (Entry E)) (f g : PendingReportFile E)
      → replay_journal entries f ≡ some g
      → (f.journal_sequence ≤ g.journal_sequence) × All (IsRead g.journal_sequence) entries
  unfolding replay_journal
  replay_journal-IsRead [] f g h = (ground (arith, h), tt)
  replay_journal-IsRead (e ∷ entries) f g h =
      let (next, one, rest) = bind_some (replay_one e f) (replay_journal entries) g h in
      let (le, read) = replay_one-IsRead e f next one in
      let (le', reads) = replay_journal-IsRead entries next g rest in
      (omega arith, (IsRead-le e next.journal_sequence g.journal_sequence le' read, reads))

  replay_one_skips :
      (e : Entry E) (f : PendingReportFile E)
      → IsRead f.journal_sequence e
      → replay_one e f ≡ some f
  unfolding replay_one
  replay_one_skips temporary f h = refl
  replay_one_skips foreign f h = absurd h
  replay_one_skips (named n none) f h = absurd h
  replay_one_skips (named n (some r)) f (a, b) = ground (arith, nat_beq_iff n r.sequence)

  -- Records that the checkpoint holds already are passed over, whichever of them are left.
  pub replay_journal-select :
      (left : Entry E → Bool) (entries : List (Entry E)) (f : PendingReportFile E)
      → All (IsRead f.journal_sequence) entries
      → replay_journal (select left entries) f ≡ some f
  unfolding replay_journal
  replay_journal-select left [] f h = refl
  replay_journal-select left (e ∷ entries) f (r, h) =
      let rest = replay_journal-select left entries f h in
      elim (Bool-cases (left e)) [
        | inl kept ↦ rw (kept, replay_one_skips e f r) rest
        | inr gone ↦ rw gone rest
      ]

  pub replay_journal-append :
      (entries : List (Entry E)) (e : Entry E) (f g : PendingReportFile E)
      → replay_journal entries f ≡ some g
      → replay_journal (entries ++ e ∷ []) f ≡ replay_one e g
  unfolding replay_journal
  replay_journal-append [] e f g h =
      let same : f ≡ g = cc h in bind_return (replay_one e f) ∙ ap (replay_one e) same
  replay_journal-append (x ∷ entries) e f g h =
      let (next, one, rest) = bind_some (replay_one x f) (replay_journal entries) g h in
      rw one (replay_journal-append entries e next g rest)

  -- A new number comes last.
  pub put_entry-append :
      (n : ℕ) (r : PendingJournalRecord E) (entries : List (Entry E)) (bound : ℕ)
      → bound < n
      → All (IsRead bound) entries
      → put_entry n r entries ≡ entries ++ named n (some r) ∷ []
  unfolding put_entry
  put_entry-append n r [] bound l h = refl
  put_entry-append n r (temporary ∷ entries) bound l (u, h) =
      ap (λ es. temporary ∷ es) (put_entry-append n r entries bound l h)
  put_entry-append n r (foreign ∷ entries) bound l (u, h) = absurd u
  put_entry-append n r (named m none ∷ entries) bound l (u, h) = absurd u
  put_entry-append n r (named m (some old) ∷ entries) bound l ((u, v), h) =
      ground (arith, put_entry-append n r entries bound l h)
