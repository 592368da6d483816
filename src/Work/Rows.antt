-- ===== src/Work/Rows.antt =====
-- The rows of Work that an operation leaves alone, and the rows that a key finds after an update.
use agentic_mesh.Prelude.{
  ℕ, ◌≤◌, String, Bool, true, false, none, some, List, [], ◌∷◌, ◌≡◌, refl, arith, ok, any_of,
  find_if, count_if, Any, here, there, Bool-cases, inl, inr, subst, sym, >>=-then, ok-injective,
  count_if-pos,
}
use agentic_mesh.Prelude.Json.{Fields}
use agentic_mesh.Journal.{EventDraft, new_event, new_outbound, append}
use agentic_mesh.Work.{WorkDb, work_keys, publish}

-- The tables of the work and of its failures are the same.
pub record Keeps (db db' : WorkDb) : Type 0 where
  pub works_kept : db'.works ≡ db.works
  pub gates_kept : db'.gates ≡ db.gates
  pub approvals_kept : db'.approvals ≡ db.approvals
  pub incidents_kept : db'.incidents ≡ db.incidents
  pub attempts_kept : db'.attempts ≡ db.attempts

pub Keeps-refl : (db : WorkDb) → Keeps db db
Keeps-refl db = record {
  works_kept = refl;
  gates_kept = refl;
  approvals_kept = refl;
  incidents_kept = refl;
  attempts_kept = refl;
}

pub Keeps-trans : {a b c : WorkDb} → Keeps a b → Keeps b c → Keeps a c
Keeps-trans h k = record {
  works_kept = cc (h.works_kept, k.works_kept);
  gates_kept = cc (h.gates_kept, k.gates_kept);
  approvals_kept = cc (h.approvals_kept, k.approvals_kept);
  incidents_kept = cc (h.incidents_kept, k.incidents_kept);
  attempts_kept = cc (h.attempts_kept, k.attempts_kept);
}

-- An event only adds to the journal.
pub publish-Keeps :
    (sha256 : String → String) (now : ℕ) (db : WorkDb) (draft : EventDraft) (topic : String)
    (payload : Fields) (db' : WorkDb)
    → publish sha256 now db draft topic payload ≡ ok db'
    → Keeps db db'
unfolding publish
publish-Keeps sha256 now db draft topic payload db' h = >>=-then (new_event draft) _ h λ e he h₁.
    >>=-then (new_outbound topic payload) _ h₁ λ m hm h₂.
      >>=-then (append sha256 now (work_keys db.works) db.journal e (m ∷ [])) _ h₂ λ x hx h₃.
        subst (Keeps db) (ok-injective h₃) (record {
          works_kept = refl;
          gates_kept = refl;
          approvals_kept = refl;
          incidents_kept = refl;
          attempts_kept = refl;
        })

-- The only row with a key is the row that the key finds.
pub find_if_unique {ℓ} :
    {A : Type ℓ} (p : A → Bool) (xs : List A) (a : A)
    → count_if p xs ≤ 1
    → Any (λ x. x ≡ a) xs
    → p a ≡ true
    → find_if p xs ≡ some a
unfolding count_if find_if
find_if_unique p [] a u m t = elim m [ ]
find_if_unique p (x ∷ xs) a u (here e) t =
    let k : p x ≡ true = subst (λ y. p y ≡ true) (sym e) t in rw (k, e)
find_if_unique p (x ∷ xs) a u (there m) t = elim (Bool-cases (p x)) [
  | inl k ↦ ground (arith, k, u, count_if-pos p xs a m t)
  | inr k ↦ rw k (find_if_unique p xs a (ground (arith, k, u)) m t)
]

pub any_of-find_if {ℓ} :
    {A : Type ℓ} (p : A → Bool) (xs : List A) → any_of p xs ≡ false → find_if p xs ≡ none
unfolding any_of find_if
any_of-find_if p [] h = refl
any_of-find_if p (x ∷ xs) h = ground (arith, any_of-find_if p xs)
