-- ===== src/Cache/Budget.antt =====
-- pkg/cache/budget.go: the byte accountant that the managers of a process share. A manager is
-- named by a number, for its pointer; `S` is the state of all managers. Byte counts do not
-- overflow: they are bounded by the memory of the process. A method holds the budget's lock, and
-- the evictions that it asks for, so each call is one step.
pub mod Drain
pub mod Loop
pub mod Reserve
pub mod Unregister
pub mod Tests
use jaydb.Base.{
  remove_at, ℕ, zero, suc, ◌+◌, ◌-◌, ◌%◌, ◌≡◌, ◌≢◌, List, [], ◌∷◌, ◌++◌, Bool, true, false, not,
  ◌&&◌, ◌||◌, Option, none, some, ltb, leb, ◌==◌, if◌then◌else◌, length, get_elem?, ℤ, pos, negsuc,
  pos_part,
}

-- The managers behind the interface `Evictor`. `evict_oldest e s` is `none` if `e` has nothing
-- left (`ok == false`), else the bytes that it freed and the state after. The laws are the
-- contract in the comment on `Evictor`: in a good state an eviction drops one entry of that manager
-- alone, and leaves a good state.
pub record Evictors (S : Type 0) (IsGood : S → Type 0) : Type 0 where
  pub evict_oldest : ℕ → S → Option (ℕ × S)
  pub held : ℕ → S → ℕ
  pub count : ℕ → S → ℕ
  pub evicts :
      (e : ℕ) (s s' : S) (freed : ℕ)
      → IsGood s
      → evict_oldest e s ≡ some (freed, s')
      → (held e s ≡ held e s' + freed) × (count e s ≡ suc (count e s')) × IsGood s'
  pub spares :
      (e d : ℕ) (s s' : S) (freed : ℕ)
      → evict_oldest e s ≡ some (freed, s')
      → (d == e) ≡ false
      → (held d s' ≡ held d s) × (count d s' ≡ count d s)
  pub exhausted :
      (e : ℕ) (s : S) → IsGood s → evict_oldest e s ≡ none → (held e s ≡ 0) × (count e s ≡ 0)

pub record Budget : Type 0 where
  pub limit : ℤ
  pub used : ℕ
  pub evictors : List ℕ
  pub cursor : ℕ

-- What a loop comes to: a result, an index out of range, or no fuel left.
pub data Run (A : Type 0) : Type 0 where
  done : A → Run A
  panicked : Run A
  stuck : Run A

unfoldable pub new_budget : ℤ → Budget
new_budget limit = record { limit = limit; used = 0; evictors = []; cursor = 0 }

unfoldable pub used_bytes : Budget → ℕ
used_bytes b = b.used

unfoldable pub limit_bytes : Budget → ℤ
limit_bytes b = b.limit

-- A nil evictor is `none`.
unfoldable pub register : Budget → Option ℕ → Budget
register b none = b
register b (some e) = record b { evictors = b.evictors ++ (e ∷ []) }

-- `limit <= 0`
abbrev pub is_unbounded : ℤ → Bool
is_unbounded l = leb (pos_part l) 0

-- `total <= limit`
abbrev pub fits : ℕ → ℤ → Bool
fits total (pos l) = leb total l
fits total (negsuc l) = false

unfoldable pub release : Budget → ℤ → Budget
release b n = if leb (pos_part n) 0 then b else record b { used = b.used - pos_part n }

abbrev pub index_from : ℕ → ℕ → List ℕ → Option ℕ
index_from i e [] = none
index_from i e (x ∷ xs) = if x == e then some i else index_from (suc i) e xs

-- The cursor after the removal at `i`, for the new number of evictors.
unfoldable pub fix_cursor : ℕ → ℕ → ℕ → ℕ
fix_cursor cursor i len =
    let c = if ltb i cursor then cursor - 1 else cursor in
    if len == 0 then 0 else if leb len c then c % len else c

module _ {S : Type 0} {IsGood : S → Type 0} (E : Evictors S IsGood) where
  open E use {evict_oldest}

  -- The loop of `Unregister`: the bytes still used, and the state with `e` drained.
  unfoldable pub drain : ℕ → ℕ → ℕ → S → Run (ℕ × S)
  drain zero e used s = stuck
  drain (suc fuel) e used s = elim (evict_oldest e s) [
    | none ↦ done (used, s)
    | some (freed, s') ↦ drain fuel e (used - freed) s'
  ]

  unfoldable pub unregister : ℕ → Budget → S → Option ℕ → Run (Budget × S)
  unregister fuel b s none = done (b, s)
  unregister fuel b s (some e) = elim (index_from 0 e b.evictors) [
    | none ↦ done (b, s)
    | some i ↦ elim (drain fuel e b.used s) [
      | stuck ↦ stuck
      | panicked ↦ panicked
      | done (used, s') ↦
          let left = remove_at i b.evictors in
          done (
            record b { used = used; evictors = left; cursor = fix_cursor b.cursor i (length left) },
            s',
          )
    ]
  ]

  -- The loop of `Reserve`.
  unfoldable pub reserve_loop : ℕ → ℕ → ℕ → Budget → S → Run (Bool × Budget × S)
  reserve_loop zero n refused b s = stuck
  reserve_loop (suc fuel) n refused b s =
      elim (ltb 0 (length b.evictors) && ltb refused (length b.evictors)) [
        | false ↦ done (false, b, s)
        | true ↦ elim (get_elem? b.evictors b.cursor) [
          | none ↦ panicked
          | some e ↦
              let next = (b.cursor + 1) % length b.evictors in
              elim (evict_oldest e s) [
                | none ↦ reserve_loop fuel n (refused + 1) (record b { cursor = next }) s
                | some (freed, s') ↦
                    let used = b.used - freed in
                    elim (fits (used + n) b.limit) [
                      | true ↦ done (true, record b { cursor = next; used = used + n }, s')
                      | false ↦ reserve_loop fuel n 0 (record b { cursor = next; used = used }) s'
                    ]
              ]
        ]
      ]

  unfoldable pub reserve : ℕ → Budget → S → ℤ → Run (Bool × Budget × S)
  reserve fuel b s m =
      let n = pos_part m in
      if is_unbounded b.limit || fits (b.used + n) b.limit
      then done (true, record b { used = b.used + n }, s)
      else if not (fits n b.limit)
      then done (false, b, s)
      else reserve_loop fuel n 0 b s
