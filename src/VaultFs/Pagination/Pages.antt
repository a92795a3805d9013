-- ===== src/VaultFs/Pagination/Pages.antt =====
-- A caller that follows the cursors.
use canterbury.Base.{
  ℕ, zero, suc, ◌+◌, ◌-◌, ◌^◌, ◌≤◌, ◌<◌, true, false, List, [], ◌∷◌, ◌++◌, ◌≡◌, ◌≢◌, refl, ap, ◌∙◌,
  arith, Bytes, length, take, drop, ltb, leb, if◌then◌else◌, Bool-cases, inl, inr,
}
use canterbury.Strings.Trim.{is_empty, trimming}
use canterbury.Strings.Decimal.{itoa}
use canterbury.Strings.Decimal.RoundTrip.{atoi-itoa, trim_space-itoa, itoa-ne-nil}
use canterbury.Errors.{Result, ok, err, message, ◌>>=◌}
use canterbury.Domain.Vault.Search.{SearchNotesQuery, SearchNoteResult, normalized_limit}
use canterbury.Domain.Vault.Search.Laws.{normalized_limit_bounds}
use canterbury.VaultFs.Pagination.{offset_of, parse_cursor, page_at, paginate_from_query}

module _ {ℓ} {A : Type ℓ} where
  drop-take-append : (m n : ℕ) (xs : List A) → m ≤ n → drop m (take n xs) ++ drop n xs ≡ drop m xs
  drop-take-append m zero xs h = let e : m ≡ 0 = omega arith in rw e refl
  drop-take-append zero (suc n) [] h = refl
  drop-take-append zero (suc n) (x ∷ xs) h = ap (◌∷◌ x) (drop-take-append zero n xs (omega arith))
  drop-take-append (suc m) (suc n) [] h = refl
  drop-take-append (suc m) (suc n) (x ∷ xs) h = drop-take-append m n xs (omega arith)

  drop_of_length : (n : ℕ) (xs : List A) → length xs ≤ n → drop n xs ≡ []
  drop_of_length zero [] h = refl
  drop_of_length zero (x ∷ xs) h = absurd (omega arith)
  drop_of_length (suc n) [] h = refl
  drop_of_length (suc n) (x ∷ xs) h = drop_of_length n xs (omega arith)

  take_of_length : (xs : List A) → take (length xs) xs ≡ xs
  take_of_length [] = refl
  take_of_length (x ∷ xs) = ap (◌∷◌ x) (take_of_length xs)

filled : (s : Bytes) → s ≢ [] → is_empty s ≡ false
filled [] ne = absurd (ne refl)
filled (c ∷ s) ne = refl

-- A cursor that a page carries is read as the offset that it stands for.
pub parse_cursor-itoa : (n : ℕ) → n ≤ 2 ^ 63 - 1 → parse_cursor (itoa n) ≡ ok n
unfolding parse_cursor offset_of
parse_cursor-itoa n small =
    let text : is_empty (itoa n) ≡ false = filled (itoa n) (itoa-ne-nil n) in
    rw (trim_space-itoa n) (rw text (rw (atoi-itoa n small) refl))

-- All results of the pages from a cursor on, for at most as many pages as the fuel says.
unfoldable pub follow :
    ℕ → SearchNotesQuery → Bytes → List SearchNoteResult → Result (List SearchNoteResult)
follow zero query cursor results = err (message "out of fuel")
follow (suc fuel) query cursor results =
    paginate_from_query (record query { cursor = cursor }) >>= λ paginate.
    let page = paginate results in
    let rest = follow fuel query page.next_cursor results in
    if is_empty page.next_cursor
    then ok page.results
    else rest >>= λ more. ok (page.results ++ more)

follow-step :
    (fuel : ℕ) (query : SearchNotesQuery) (cursor : Bytes) (results : List SearchNoteResult)
    (offset : ℕ)
    → parse_cursor cursor ≡ ok offset
    → let page = page_at offset (normalized_limit query) results in
      follow (suc fuel) query cursor results ≡ (
        if is_empty page.next_cursor
        then ok page.results
        else follow fuel query page.next_cursor results >>= λ more. ok (page.results ++ more))
unfolding follow paginate_from_query normalized_limit
follow-step fuel query cursor results offset h = rw h refl

-- The tests of `page_at`: the offset is past the results, the page is the last one, or another
-- one follows.
past_end :
    (offset limit : ℕ) (results : List SearchNoteResult)
    → length results ≤ offset
    → page_at offset limit results ≡ record { results = []; next_cursor = [] }
unfolding page_at
past_end offset limit results h =
    let past : leb (length results) offset ≡ true = ground arith in rw past refl

last_page :
    (offset limit : ℕ) (results : List SearchNoteResult)
    → offset < length results
    → length results ≤ offset + limit
    → page_at offset limit results ≡ record { results = drop offset results; next_cursor = [] }
unfolding page_at
last_page offset limit results inside h =
    let within : leb (length results) offset ≡ false = ground arith in
    let end : (if ltb (length results) (offset + limit) then length results else offset + limit)
        ≡ length results =
      ground arith in
    let reached : ltb (length results) (length results) ≡ false = ground arith in
    rw within (rw end (rw reached (rw (take_of_length results) refl)))

inner_page :
    (offset limit : ℕ) (results : List SearchNoteResult)
    → offset + limit < length results
    → page_at offset limit results ≡ record {
      results = drop offset (take (offset + limit) results);
      next_cursor = itoa (offset + limit);
    }
unfolding page_at
inner_page offset limit results h =
    let within : leb (length results) offset ≡ false = ground arith in
    let end : ltb (length results) (offset + limit) ≡ false = ground arith in
    let more : ltb (offset + limit) (length results) ≡ true = ground arith in
    rw within (rw end (rw more refl))

follow_from :
    (fuel : ℕ) (query : SearchNotesQuery) (cursor : Bytes) (results : List SearchNoteResult)
    (offset : ℕ)
    → length results ≤ 2 ^ 63 - 1
    → length results - offset < fuel
    → parse_cursor cursor ≡ ok offset
    → follow fuel query cursor results ≡ ok (drop offset results)
follow_from zero query cursor results offset small enough h = absurd (omega arith)
follow_from (suc fuel) query cursor results offset small enough h =
    let limit = normalized_limit query in
    let positive : 1 ≤ limit = (normalized_limit_bounds query).0 in
    elim (Bool-cases (ltb offset (length results))) [
      | inr past ↦
          let e = past_end offset limit results (ground arith) in
          follow-step fuel query cursor results offset h
          ∙ rw e (rw (drop_of_length offset results (ground arith)) refl)
      | inl inside ↦ elim (Bool-cases (ltb (offset + limit) (length results))) [
        | inr last ↦
            let e = last_page offset limit results (ground arith) (ground arith) in
            follow-step fuel query cursor results offset h ∙ rw e refl
        | inl inner ↦
            let e = inner_page offset limit results (ground arith) in
            let text : is_empty (itoa (offset + limit)) ≡ false =
              filled (itoa (offset + limit)) (itoa-ne-nil (offset + limit)) in
            let rest =
              follow_from fuel query (itoa (offset + limit)) results (offset + limit) small
                (ground arith) (parse_cursor-itoa (offset + limit) (ground arith)) in
            follow-step fuel query cursor results offset h
            ∙ rw e (
                rw text (
                  rw rest (ap ok (drop-take-append offset (offset + limit) results (omega arith)))))
      ]
    ]

first_cursor : parse_cursor [] ≡ ok 0
unfolding parse_cursor trimming
first_cursor = refl

-- Following the cursors from the first page on, until a page carries none, gives every result
-- once and in order, with at most one page more than there are results, as long as an `int`
-- holds their number.
pub follow-all :
    (query : SearchNotesQuery) (results : List SearchNoteResult)
    → length results ≤ 2 ^ 63 - 1
    → follow (suc (length results)) query [] results ≡ ok results
follow-all query results small =
    follow_from (suc (length results)) query [] results 0 small (omega arith) first_cursor
