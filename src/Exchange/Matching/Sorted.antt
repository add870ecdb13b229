-- ===== src/Exchange/Matching/Sorted.antt =====
-- Books that an order joins and books that are sorted.
use ftg_chain.Base.{◌≢◌, sym, inl, inr, Bool, List, [], ◌∷◌, ◌++◌, String, Bool-cases}
use ftg_chain.Base.Lists.{All, insert_by, sort_onto, sort_slice}
use ftg_chain.Exchange.Types.{Keeper}
use ftg_chain.Exchange.Matching.Books.{NotIn, Listed, BookOk}

module _ (k : Keeper) (b : Bool) (p : String) where
  pub NotIn-snoc :
      (j id : String) (book : List String) → NotIn j book → id ≢ j → NotIn j (book ++ id ∷ [])
  NotIn-snoc j id [] out ne = (ne, tt)
  NotIn-snoc j id (i ∷ book) (h, out) ne = (h, NotIn-snoc j id book out ne)

  -- An order joins at the end.
  pub BookOk-snoc :
      (id : String) (book : List String)
      → Listed k b p id
      → NotIn id book
      → BookOk k b p book
      → BookOk k b p (book ++ id ∷ [])
  BookOk-snoc id [] l out ok = (l, tt, tt)
  BookOk-snoc id (i ∷ book) l (ne, out) (h, n, ok) =
      (h, NotIn-snoc i id book n (λ s. ne (sym s)), BookOk-snoc id book l out ok)

  module _ (less : String → String → Bool) where
    NotIn-insert_by :
        (j id : String) (book : List String)
        → id ≢ j
        → NotIn j book
        → NotIn j (insert_by less id book)
    unfolding insert_by
    NotIn-insert_by j id [] ne out = (ne, tt)
    NotIn-insert_by j id (i ∷ book) ne (h, out) = elim (Bool-cases (less id i)) [
      | inl before ↦ rw before (ne, (h, out))
      | inr after ↦ rw after (h, NotIn-insert_by j id book ne out)
    ]

    BookOk-insert_by :
        (id : String) (book : List String)
        → Listed k b p id
        → NotIn id book
        → BookOk k b p book
        → BookOk k b p (insert_by less id book)
    unfolding insert_by
    BookOk-insert_by id [] l out ok = (l, tt, tt)
    BookOk-insert_by id (i ∷ book) l (ne, out) (h, n, ok) = elim (Bool-cases (less id i)) [
      | inl before ↦ rw before (l, (ne, out), (h, n, ok))
      | inr after ↦
          rw after
            (h, NotIn-insert_by i id book (λ s. ne (sym s)) n, BookOk-insert_by id book l out ok)
    ]

    -- No order of the first book is in the second.
    Disjoint : List String → List String → Type 0
    Disjoint book sorted = All (λ j. NotIn j sorted) book

    Disjoint-insert_by :
        (id : String) (book sorted : List String)
        → NotIn id book
        → Disjoint book sorted
        → Disjoint book (insert_by less id sorted)
    unfolding Disjoint
    Disjoint-insert_by id [] sorted out apart = tt
    Disjoint-insert_by id (j ∷ book) sorted (ne, out) (h, apart) = (
      NotIn-insert_by j id sorted (λ s. ne (sym s)) h,
      Disjoint-insert_by id book sorted out apart,
    )

    sort_onto-BookOk :
        (book sorted : List String)
        → BookOk k b p book
        → BookOk k b p sorted
        → Disjoint book sorted
        → BookOk k b p (sort_onto less book sorted)
    unfolding sort_onto Disjoint
    sort_onto-BookOk [] sorted ok done apart = done
    sort_onto-BookOk (id ∷ book) sorted (l, out, ok) done (h, apart) =
        sort_onto-BookOk book (insert_by less id sorted) ok (BookOk-insert_by id sorted l h done)
          (Disjoint-insert_by id book sorted out apart)

    Disjoint-nil : (book : List String) → Disjoint book []
    unfolding Disjoint
    Disjoint-nil [] = tt
    Disjoint-nil (id ∷ book) = (tt, Disjoint-nil book)

    pub sort_slice-BookOk :
        (book : List String) → BookOk k b p book → BookOk k b p (sort_slice less book)
    unfolding sort_slice
    sort_slice-BookOk book ok = sort_onto-BookOk book [] ok tt (Disjoint-nil book)

    NotIn-sort_onto :
        (j : String) (book sorted : List String)
        → NotIn j book
        → NotIn j sorted
        → NotIn j (sort_onto less book sorted)
    unfolding sort_onto
    NotIn-sort_onto j [] sorted out free = free
    NotIn-sort_onto j (id ∷ book) sorted (ne, out) free =
        NotIn-sort_onto j book (insert_by less id sorted) out (NotIn-insert_by j id sorted ne free)

    pub NotIn-sort_slice :
        (j : String) (book : List String) → NotIn j book → NotIn j (sort_slice less book)
    unfolding sort_slice
    NotIn-sort_slice j book out = NotIn-sort_onto j book [] out tt
