-- ===== src/LogBuffer/Latest.antt =====
-- What a whole history of records leaves in the buffer, and what a page that polls it gets to see.
use mathlib.Core.List.{append_assoc, append-nil}
use wasteless.Common.{
  ℕ, suc, zero, ◌+◌, ◌-◌, ◌≤◌, String, ◌≡◌, refl, sym, ap, ◌∙◌, inl, inr, Bool, true, false, Option,
  none, some, List, [], ◌∷◌, ◌++◌, ltb, leb, Bool-cases, keep, drop, length, length-append,
  length-drop, arith, if◌then◌else◌,
}
use wasteless.LogBuffer.{Entry, Handler, new_handler, emit, last_of, query}
use wasteless.LogBuffer.Polls.{IsNumbered, drop-IsNumbered, keep_all}

-- The records are emitted one after the other.
unfoldable pub emit_all : List (Option Entry) → Handler → Handler
emit_all [] h = h
emit_all (o ∷ os) h = emit_all os (emit o h)

-- All that is captured of the records, numbered from `k` on: a record whose formatting raises is
-- none of it.
unfoldable pub captured : ℕ → List (Option Entry) → List Entry
captured k [] = []
captured k (none ∷ os) = captured k os
captured k (some entry ∷ os) = record entry { id = k } ∷ captured (suc k) os

-- The last `m` of the entries.
abbrev pub latest : ℕ → List Entry → List Entry
latest m xs = drop (length xs - m) xs

-- The handler that the captured entries `xs` stand for.
abbrev pub handler_of : ℕ → List Entry → Handler
handler_of m xs = record { maxlen = m; buffer = latest m xs; next_id = suc (length xs) }

drop_nil : (n : ℕ) → drop {A = Entry} n [] ≡ []
drop_nil zero = refl
drop_nil (suc n) = refl

drop-append : (n : ℕ) (xs ys : List Entry) → n ≤ length xs → drop n (xs ++ ys) ≡ drop n xs ++ ys
drop-append zero xs ys h = refl
drop-append (suc n) [] ys h = ground (arith, h)
drop-append (suc n) (x ∷ xs) ys h = drop-append n xs ys (omega (arith, h))

drop-drop : (n k : ℕ) (xs : List Entry) → drop k (drop n xs) ≡ drop (n + k) xs
drop-drop zero k xs = ap (λ a. drop a xs) (omega arith)
drop-drop (suc n) k [] = drop_nil k ∙ sym (drop_nil (suc n + k))
drop-drop (suc n) k (x ∷ xs) = drop-drop n k xs ∙ ap (λ a. drop a (x ∷ xs)) (shift n k)
  where
    shift : (n k : ℕ) → suc (n + k) ≡ suc n + k
    shift n k = omega arith

appended_latest :
    (m : ℕ) (xs : List Entry) (x : Entry)
    → latest m (latest m xs ++ x ∷ []) ≡ latest m (xs ++ x ∷ [])
appended_latest m xs x =
    let a = length xs - m in
    let all = xs ++ x ∷ [] in
    let joined : drop a xs ++ x ∷ [] ≡ drop a all = sym (drop-append a xs (x ∷ []) (omega arith)) in
    let counted : a + (length (drop a all) - m) ≡ length all - m =
      omega (arith, length-drop a all, length-append xs (x ∷ [])) in
    ap (latest m) joined ∙ drop-drop a (length (drop a all) - m) all ∙ ap (λ n. drop n all) counted

emit-handler_of :
    (m : ℕ) (xs : List Entry) (entry : Entry)
    → emit (some entry) (handler_of m xs)
      ≡ handler_of m (xs ++ record entry { id = suc (length xs) } ∷ [])
unfolding emit
emit-handler_of m xs entry =
    let x = record entry { id = suc (length xs) } in
    let count : suc (suc (length xs)) ≡ suc (length (xs ++ x ∷ [])) =
      omega (arith, length-append xs (x ∷ [])) in
    rw (appended_latest m xs x, count) refl

emit_all-handler_of :
    (m : ℕ) (os : List (Option Entry)) (xs : List Entry)
    → emit_all os (handler_of m xs) ≡ handler_of m (xs ++ captured (suc (length xs)) os)
unfolding emit_all captured emit
emit_all-handler_of m [] xs = ap (handler_of m) (sym (append-nil xs))
emit_all-handler_of m (none ∷ os) xs = emit_all-handler_of m os xs
emit_all-handler_of m (some entry ∷ os) xs =
    let x = record entry { id = suc (length xs) } in
    let count : length (xs ++ x ∷ []) ≡ suc (length xs) =
      omega (arith, length-append xs (x ∷ [])) in
    ap (emit_all os) (emit-handler_of m xs entry)
    ∙ emit_all-handler_of m os (xs ++ x ∷ [])
    ∙ ap (λ k. handler_of m ((xs ++ x ∷ []) ++ captured (suc k) os)) count
    ∙ ap (handler_of m) (append_assoc xs (x ∷ []) (captured (suc (suc (length xs))) os))

new_handler-handler_of : (m : ℕ) → new_handler m ≡ handler_of m []
unfolding new_handler
new_handler-handler_of m =
    ap (λ b. record { maxlen = m; buffer = b; next_id = 1 }) (sym (drop_nil (0 - m)))

-- Whatever is emitted to a new handler, it then holds just the last captured records, as many as its
-- capacity allows, in their order, numbered by their place among all that were captured, and the next
-- number is one more than their count.
pub emit_all-new_handler :
    (m : ℕ) (os : List (Option Entry)) → emit_all os (new_handler m) ≡ handler_of m (captured 1 os)
emit_all-new_handler m os =
    ap (emit_all os) (new_handler-handler_of m) ∙ emit_all-handler_of m os []

captured-IsNumbered : (k : ℕ) (os : List (Option Entry)) → IsNumbered k (captured k os)
unfolding captured
captured-IsNumbered k [] = tt
captured-IsNumbered k (none ∷ os) = captured-IsNumbered k os
captured-IsNumbered k (some entry ∷ os) = (refl, captured-IsNumbered (suc k) os)

newer-append :
    (after : ℕ) (xs ys : List Entry)
    → keep (λ e. ltb after e.id) (xs ++ ys)
      ≡ keep (λ e. ltb after e.id) xs ++ keep (λ e. ltb after e.id) ys
newer-append after [] ys = refl
newer-append after (x ∷ xs) ys =
    step (keep (λ e. ltb after e.id) xs) (keep (λ e. ltb after e.id) ys) (ltb after x.id)
      (newer-append after xs ys)
  where
    step :
        {a : List Entry} (b c : List Entry) (p : Bool)
        → a ≡ b ++ c
        → (if p then x ∷ a else a) ≡ (if p then x ∷ b else b) ++ c
    step b c true h = ap (λ l. x ∷ l) h
    step b c false h = h

none_newer :
    (after k : ℕ) (xs : List Entry)
    → IsNumbered k xs
    → k + length xs ≤ suc after
    → keep (λ e. ltb after e.id) xs ≡ []
none_newer after k [] h small = refl
none_newer after k (x ∷ xs) (here, later) small =
    let old : ltb after x.id ≡ false = ground arith in
    rw old (none_newer after (suc k) xs later (omega (arith, small)))

all_newer :
    (after k : ℕ) (xs : List Entry)
    → IsNumbered k xs
    → suc after ≤ k
    → keep (λ e. ltb after e.id) xs ≡ xs
all_newer after k [] h large = refl
all_newer after k (x ∷ xs) (here, later) large =
    let new : ltb after x.id ≡ true = ground arith in
    rw new (ap (λ l. x ∷ l) (all_newer after (suc k) xs later (omega (arith, large))))

drop-length-append : (xs ys : List Entry) → drop (length xs) (xs ++ ys) ≡ ys
drop-length-append [] ys = refl
drop-length-append (x ∷ xs) ys = drop-length-append xs ys

-- Of the last entries, those behind the place `length xs` are the last of what came behind it.
newer-latest :
    (m : ℕ) (xs ys : List Entry)
    → IsNumbered 1 xs
    → IsNumbered (suc (length xs)) ys
    → keep (λ e. ltb (length xs) e.id) (latest m (xs ++ ys)) ≡ latest m ys
newer-latest m xs ys before since = elim (Bool-cases (leb (length ys) m)) [
  | inl fits ↦
      let a = length (xs ++ ys) - m in
      let within : a ≤ length xs = ground (arith, length-append xs ys) in
      let whole : length ys - m ≡ 0 = ground arith in
      let old : keep (λ e. ltb (length xs) e.id) (drop a xs) ≡ [] =
        none_newer (length xs) (1 + a) (drop a xs) (drop-IsNumbered a 1 xs before)
          (omega (arith, length-drop a xs, within)) in
      ap (keep (λ e. ltb (length xs) e.id)) (drop-append a xs ys within)
      ∙ newer-append (length xs) (drop a xs) ys
      ∙ ap (λ l. l ++ keep (λ e. ltb (length xs) e.id) ys) old
      ∙ all_newer (length xs) (suc (length xs)) ys since (omega arith)
      ∙ ap (λ k. drop k ys) (sym whole)
  | inr many ↦
      let b = length ys - m in
      let split : length (xs ++ ys) - m ≡ length xs + b = ground (arith, length-append xs ys) in
      let rest : latest m (xs ++ ys) ≡ drop b ys =
        ap (λ k. drop k (xs ++ ys)) split
        ∙ sym (drop-drop (length xs) b (xs ++ ys))
        ∙ ap (drop b) (drop-length-append xs ys) in
      ap (keep (λ e. ltb (length xs) e.id)) rest
      ∙ all_newer (length xs) (suc (length xs) + b) (drop b ys)
          (drop-IsNumbered b (suc (length xs)) ys since) (omega arith)
]

-- What a poll without filters answers of the entries behind the last id of an earlier poll.
query-handler_of :
    (lower : String → String) (m limit : ℕ) (xs ys : List Entry)
    → lower "" ≡ ""
    → IsNumbered 1 xs
    → IsNumbered (suc (length xs)) ys
    → (query lower (length xs) 0 "" limit (handler_of m (xs ++ ys))).entries
      ≡ last_of limit (latest m ys)
unfolding query
query-handler_of lower m limit xs ys empty before since =
    rw (empty, keep_all lower (keep (λ e. ltb (length xs) e.id) (latest m (xs ++ ys))))
      (ap (last_of limit) (newer-latest m xs ys before since))

query_last_id :
    (lower : String → String) (after level limit m : ℕ) (search : String) (xs : List Entry)
    → (query lower after level search limit (handler_of m xs)).last_id ≡ length xs
unfolding query
query_last_id lower after level limit m search xs = omega arith

-- A page polls a buffer that was new once, with whatever filters, and polls it again later without
-- filters, from the last id of its first answer on. Then it gets what was captured in between, oldest
-- first: all of it, or its newest entries, as many as the capacity and the limit of the poll allow,
-- where a limit of 0 is none. It is assumed that `lower` leaves the empty text.
pub query-emit_all :
    (lower : String → String) (m after level limit limit' : ℕ) (search : String)
    (os ps : List (Option Entry))
    → lower "" ≡ ""
    → let h = emit_all os (new_handler m) in
      let first = query lower after level search limit h in
      (query lower first.last_id 0 "" limit' (emit_all ps h)).entries
      ≡ last_of limit' (latest m (captured (suc (length (captured 1 os))) ps))
query-emit_all lower m after level limit limit' search os ps empty =
    let xs = captured 1 os in
    let ys = captured (suc (length xs)) ps in
    let told = query_last_id lower after level limit m search xs in
    rw (emit_all-new_handler m os, told, emit_all-handler_of m ps xs)
      (query-handler_of lower m limit' xs ys empty (captured-IsNumbered 1 os)
        (captured-IsNumbered (suc (length xs)) ps))
