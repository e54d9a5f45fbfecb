-- ===== src/Rows/Partial.antt =====
-- What a receiving that fails leaves behind: the rows that `recv_result` of include/ozo/io/recv.h has
-- inserted before the exception stay in the container.
use ozo.Prelude.{
  ◌≡◌, refl, sym, ap, ◌∙◌, inl, inr, List, [], ◌∷◌, ◌++◌, append-nil, append_assoc, Option, none,
  some,
}
use ozo.Prelude.Result.{Result, ok, err, Result-cases}
use ozo.Io.OidMap.{OidMap}
use ozo.Io.Stream.{Failure}
use ozo.Rows.{PgResult, Coordinates}
use ozo.Rows.Receive.{RowType, ElRow, init_row, recv_row, rows, insert_rows, recv_result}

module _ (res : PgResult) (oids : OidMap) (r : RowType) where
  -- The loop with the container as its state: the container at the end, and the exception, if any.
  unfoldable pub inserted : List Coordinates → List (ElRow r) → List (ElRow r) × Option Failure
  inserted [] container = (container, none)
  inserted (row ∷ left) container = elim (recv_row res oids r row (init_row r)) [
    | err failure ↦ (container, some failure)
    | ok v ↦ inserted left (container ++ v ∷ [])
  ]

  unfoldable pub recv_into : List (ElRow r) → List (ElRow r) × Option Failure
  recv_into container = inserted (rows res) container

  -- The objects are those that the rows are received as.
  abbrev pub Received : List Coordinates → List (ElRow r) → Type 0
  Received [] [] = Unit {0}
  Received (row ∷ left) (v ∷ vs) = (recv_row res oids r row (init_row r) ≡ ok v) × Received left vs
  Received left vs = ⊥

  -- What the loop has not visited is nothing, or begins with the row that fails.
  abbrev pub Stopped : List Coordinates → Option Failure → Type 0
  Stopped [] none = Unit {0}
  Stopped (row ∷ left) (some failure) = recv_row res oids r row (init_row r) ≡ err failure
  Stopped left failure = ⊥

  -- The outcome, seen without the container that an exception leaves.
  abbrev pub outcome : List (ElRow r) × Option Failure → Result Failure (List (ElRow r))
  outcome (container, none) = ok container
  outcome (container, some failure) = err failure

  abbrev pub IsPrefix : List Coordinates → List (ElRow r) → List (ElRow r) × Option Failure → Type 0
  IsPrefix all container left =
      (before : List Coordinates) × (after : List Coordinates) × (vs : List (ElRow r)) × (all
        ≡ before ++ after)
      × (left.0 ≡ container ++ vs)
      × Received before vs
      × Stopped after left.1

  inserted-IsPrefix :
      (left : List Coordinates) (container : List (ElRow r))
      → IsPrefix left container (inserted left container)
  unfolding inserted
  inserted-IsPrefix [] container = ([], [], [], refl, sym (append-nil container), tt, tt)
  inserted-IsPrefix (row ∷ left) container =
      elim (Result-cases (recv_row res oids r row (init_row r))) [
        | inl e ↦ rw (inserted, e.1) ([], row ∷ left, [], refl, sym (append-nil container), tt, e.1)
        | inr e ↦
            let (before, after, vs, split, grown, received, stopped) =
              inserted-IsPrefix left (container ++ e.0 ∷ []) in
            rw (inserted, e.1)
              (
                row ∷ before,
                after,
                e.0 ∷ vs,
                ap (λ l. row ∷ l) split,
                grown ∙ append_assoc container (e.0 ∷ []) vs,
                (e.1, received),
                stopped,
              )
      ]

  inserted-insert_rows :
      (left : List Coordinates) (container : List (ElRow r))
      → insert_rows res oids r left container ≡ outcome (inserted left container)
  unfolding inserted insert_rows
  inserted-insert_rows [] container = refl
  inserted-insert_rows (row ∷ left) container =
      elim (Result-cases (recv_row res oids r row (init_row r))) [
        | inl e ↦ rw (inserted, e.1) refl
        | inr e ↦ rw (inserted, e.1) (inserted-insert_rows left (container ++ e.0 ∷ []))
      ]

  -- However receiving a result ends, the container holds what it held before and behind it, in order,
  -- the objects of the rows before the one that failed, and no other; without an exception all rows
  -- have been received. The outcome is that of `recv_result`.
  pub recv_into-IsPrefix :
      (container : List (ElRow r))
      → IsPrefix (rows res) container (recv_into container)
        × (recv_result res oids r container ≡ outcome (recv_into container))
  unfolding recv_into recv_result
  recv_into-IsPrefix container =
      (inserted-IsPrefix (rows res) container, inserted-insert_rows (rows res) container)
