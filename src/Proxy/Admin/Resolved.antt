-- ===== src/Proxy/Admin/Resolved.antt =====
-- What a resolution makes of the rows of escalations.
use truebearing.Base.{
  ℤ, String, ◌≡◌, ◌⊎◌, inl, inr, refl, ◌==◌, ◌&&◌, arith, Bool-cases, Bool, true, false, Option,
  none, some, List, [], ◌∷◌, if◌then◌else◌, any,
}
use truebearing.Store.Escalations.{find_row, is_pending, resolve_rows}
use truebearing.Store.Rows.{Escalation, nullable_string}

-- The row of the escalation, if it is pending.
abbrev pub is_open : String → Escalation → Bool
is_open id e = e.id == id && e.status == "pending"

-- How a resolution changes a row: the pending one of the id takes the status, the note and the time, and
-- every other one stays.
abbrev pub IsResolvedRow : ℤ → String → String → String → Escalation → Escalation → Type 0
IsResolvedRow now id status note old new =
    ((is_open id old ≡ true)
      × (new ≡ record old {
        status = status;
        reason = if note == "" then none else some note;
        resolved_at = some now;
      }))
    ⊎ ((is_open id old ≡ false) × (new ≡ old))

-- How it changes the rows, one by one.
unfoldable pub AreResolved :
    ℤ → String → String → String → List Escalation → List Escalation → Type 0
AreResolved now id status note [] [] = Unit {0}
AreResolved now id status note (old ∷ olds) (new ∷ news) =
    IsResolvedRow now id status note old new × AreResolved now id status note olds news
AreResolved now id status note _ _ = ⊥

pub resolve_rows-AreResolved :
    (now : ℤ) (id status note : String) (rows : List Escalation)
    → AreResolved now id status note rows (resolve_rows now id status note rows)
unfolding AreResolved resolve_rows nullable_string
resolve_rows-AreResolved now id status note [] = tt
resolve_rows-AreResolved now id status note (e ∷ rows) =
    let rest = resolve_rows-AreResolved now id status note rows in
    elim (Bool-cases (is_pending id e)) [
      | inl h ↦ (inl (h, rw h refl), rest)
      | inr h ↦ (inr (h, rw h refl), rest)
    ]

abbrev pub is_there : Option Escalation → Bool
is_there none = false
is_there (some row) = true

pub any-find_row :
    (id : String) (rows : List Escalation)
    → any (λ e. e.id == id) rows ≡ is_there (find_row rows id)
unfolding any find_row
any-find_row id [] = refl
any-find_row id (e ∷ rows) = ground (arith, any-find_row id rows)
