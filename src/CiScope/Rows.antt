-- ===== src/CiScope/Rows.antt =====
-- `extract_filenames`: which responses are accepted, and which names are read from them.
use mathlib.Core.List.{append_assoc, append-nil}
use grain_protocol.Base.{
  ℕ, suc, ◌+◌, ◌<◌, ◌≡◌, refl, ◌↔◌, ◌∙◌, ap, sym, subst, ok-injective, ◌>>=◌, arith, String, str_eq,
  false, Option, none, some, List, [], ◌∷◌, ◌++◌, length, inl, inr, ◌⊎◌, ok, >>=-eq-ok,
}
use grain_protocol.Base.Int.{ℤ, pos, eqb_ℤ-iff}
use grain_protocol.Json.{Value, null, str, arr, obj, items, Items, Fields, get}
use grain_protocol.CiScope.{
  Message, non_empty, name_or, previous_names, item_filenames, Seen, scan_page, scan_pages,
  check_count, extract_filenames,
}

-- The names that one row of the response gives: the file's, and its former one after a rename.
pub data Row : Value → List String → Type 0 where
  kept :
      {item : Fields} {s : String}
      → get item "filename" ≡ str s
      → str_eq s "" ≡ false
      → get item "previous_filename" ≡ null
      → Row (obj item) (s ∷ [])
  renamed :
      {item : Fields} {s t : String}
      → get item "filename" ≡ str s
      → str_eq s "" ≡ false
      → get item "previous_filename" ≡ str t
      → str_eq t "" ≡ false
      → Row (obj item) (s ∷ t ∷ [])

pub data Page : List Value → List String → Type 0 where
  last : Page [] []
  row :
      {item : Value} {page : List Value} {names more : List String}
      → Row item names
      → Page page more
      → Page (item ∷ page) (names ++ more)

non_empty-some :
    (v : Value) (s : String) → non_empty v ≡ some s → (v ≡ str s) × (str_eq s "" ≡ false)
non_empty-some (str t) s h = ground arith
non_empty-some _ s h = cc

name_or-eq-ok : (m : Message) (o : Option String) {s : String} → name_or m o ≡ ok s → o ≡ some s
name_or-eq-ok m (some t) h = cc
name_or-eq-ok m none h = cc

abbrev Former : Value → List String → Type 0
Former v names =
    ((v ≡ null) × (names ≡ []))
    ⊎ ((t : String) × (v ≡ str t) × (str_eq t "" ≡ false) × (names ≡ t ∷ []))

present-Former :
    (v : Value) (names : List String)
    → (name_or Message.invalid_previous_filename (non_empty v) >>= (λ s. ok (s ∷ []))) ≡ ok names
    → Former v names
present-Former v names h =
    let (t, first, same) = >>=-eq-ok (name_or _ (non_empty v)) _ h in
    let (is_text, full) = non_empty-some v t (name_or-eq-ok _ _ first) in inr (t, is_text, full, cc)

previous_names-Former :
    (v : Value) (names : List String) → previous_names v ≡ ok names → Former v names
previous_names-Former null names h = inl (refl, cc)
previous_names-Former (str t) names h = present-Former (str t) names h
previous_names-Former _ names h = cc

Row-Former :
    {item : Fields} {s : String} {previous : List String}
    → get item "filename" ≡ str s
    → str_eq s "" ≡ false
    → Former (get item "previous_filename") previous
    → Row (obj item) (s ∷ previous)
Row-Former {item} {s} e full (inl (absent, none_left)) =
    subst (λ l. Row (obj item) (s ∷ l)) (sym none_left) (kept e full absent)
Row-Former {item} {s} e full (inr (t, present, full', one)) =
    subst (λ l. Row (obj item) (s ∷ l)) (sym one) (renamed e full present full')

item_filenames-Row : (v : Value) (names : List String) → item_filenames v ≡ ok names → Row v names
unfolding item_filenames
item_filenames-Row (obj item) names h =
    let (s, first, rest) = >>=-eq-ok (name_or _ (non_empty (get item "filename"))) _ h in
    let (previous, second, same) =
      >>=-eq-ok (previous_names (get item "previous_filename")) _ rest in
    let (is_text, full) = non_empty-some _ s (name_or-eq-ok _ _ first) in
    let former = previous_names-Former (get item "previous_filename") previous second in
    let whole : s ∷ previous ≡ names = ok-injective same in
    subst (Row (obj item)) whole (Row-Former is_text full former)
item_filenames-Row _ names h = cc

Row-item_filenames : {v : Value} {names : List String} → Row v names → item_filenames v ≡ ok names
unfolding item_filenames
Row-item_filenames (kept e full absent) = rw (e, full, absent)
Row-item_filenames (renamed e full present full') = rw (e, full, present, full')

Seen-path :
    {names names' : List String} {n n' : ℕ}
    → names ≡ names'
    → n ≡ n'
    → ◌≡◌ {A = Seen}
        (record { filenames = names; row_count = n })
        (record { filenames = names'; row_count = n' })
Seen-path p q = λ i. record { filenames = p i; row_count = q i }

scan_page-Page :
    (seen : Seen) (page : List Value) (out : Seen)
    → scan_page seen page ≡ ok out
    → (more : List String) × Page page more
      × (out.filenames ≡ seen.filenames ++ more)
      × (out.row_count ≡ seen.row_count + length page)
unfolding scan_page
scan_page-Page seen [] out h =
    let same : seen ≡ out = cc in
    subst
      (λ o.
        (more : List String) × Page [] more
        × (o.filenames ≡ seen.filenames ++ more)
        × (o.row_count ≡ seen.row_count + 0))
      same ([], last, sym (append-nil seen.filenames), omega arith)
scan_page-Page seen (item ∷ page) out h =
    let (names, one, rest) = >>=-eq-ok (item_filenames item) _ h in
    let next : Seen = record {
      filenames = seen.filenames ++ names;
      row_count = suc seen.row_count;
    } in
    let (more, listed, same, counted) = scan_page-Page next page out rest in
    (
      names ++ more,
      row (item_filenames-Row item names one) listed,
      same ∙ append_assoc seen.filenames names more,
      omega arith,
    )

Page-scan_page :
    (seen : Seen) {page : List Value} {names : List String}
    → Page page names
    → scan_page seen page
      ≡ ok
          (record { filenames = seen.filenames ++ names; row_count = seen.row_count + length page })
unfolding scan_page
Page-scan_page seen last = ap ok (Seen-path (sym (append-nil seen.filenames)) (omega arith))
Page-scan_page seen (row {page = page} {names = names} {more = more} r listed) =
    let next : Seen = record {
      filenames = seen.filenames ++ names;
      row_count = suc seen.row_count;
    } in
    rw (Row-item_filenames r) (
      Page-scan_page next listed
      ∙ ap ok (Seen-path (append_assoc seen.filenames names more) (omega arith)))

-- The names and the number of the rows of a response's pages.
pub data Pages : List Value → List String → ℕ → Type 0 where
  done : Pages [] [] 0
  page :
      {rows : Items} {rest : List Value} {names more : List String} {n : ℕ}
      → Page (items rows) names
      → Pages rest more n
      → Pages (arr rows ∷ rest) (names ++ more) (length (items rows) + n)

abbrev Extends : Seen → List Value → Seen → Type 0
Extends seen pages out =
    (more : List String) × (n : ℕ) × Pages pages more n
    × (out.filenames ≡ seen.filenames ++ more)
    × (out.row_count ≡ seen.row_count + n)

scan_pages-Pages :
    (seen : Seen) (pages : List Value) (out : Seen)
    → scan_pages seen pages ≡ ok out
    → Extends seen pages out
unfolding scan_pages
scan_pages-Pages seen [] out h =
    subst (Extends seen []) (ok-injective h)
      ([], 0, done, sym (append-nil seen.filenames), omega arith)
scan_pages-Pages seen (arr rows ∷ pages) out h =
    let (next, one, rest) = >>=-eq-ok (scan_page seen (items rows)) _ h in
    let (names, listed, same, counted) = scan_page-Page seen (items rows) next one in
    let (more, n, later, same', counted') = scan_pages-Pages next pages out rest in
    (
      names ++ more,
      length (items rows) + n,
      page listed later,
      same' ∙ ap (λ s. s ++ more) same ∙ append_assoc seen.filenames names more,
      omega arith,
    )
scan_pages-Pages seen (_ ∷ pages) out h = cc

Pages-scan_pages :
    (seen : Seen) {pages : List Value} {names : List String} {n : ℕ}
    → Pages pages names n
    → scan_pages seen pages
      ≡ ok (record { filenames = seen.filenames ++ names; row_count = seen.row_count + n })
unfolding scan_pages
Pages-scan_pages seen done = ap ok (Seen-path (sym (append-nil seen.filenames)) (omega arith))
Pages-scan_pages seen (page {rows = rows} {names = names} {more = more} listed later) =
    let next : Seen = record {
      filenames = seen.filenames ++ names;
      row_count = seen.row_count + length (items rows);
    } in
    rw (Page-scan_page seen listed) (
      Pages-scan_pages next later
      ∙ ap ok (Seen-path (append_assoc seen.filenames names more) (omega arith)))

-- The number of rows is the expected one, if one is expected, and not zero.
abbrev pub IsCounted : Option ℤ → ℕ → Type 0
IsCounted none n = 0 < n
IsCounted (some expected) n = (0 < n) × (pos n ≡ expected)

abbrev start : Seen
start = record { filenames = []; row_count = 0 }

check_count_iff :
    (expected_count : Option ℤ) (seen : Seen) (names : List String)
    → (check_count expected_count seen ≡ ok names)
      ↔ ((seen.filenames ≡ names) × IsCounted expected_count seen.row_count)
unfolding check_count
check_count_iff none seen names = ground arith
check_count_iff (some n) seen names = ground (arith, eqb_ℤ-iff (pos seen.row_count) n)

-- A list of pages whose rows all have names, as many rows as expected, and the rows' names in order.
abbrev pub Response : Value → Option ℤ → List String → Type 0
Response payload expected_count names =
    (pages : Items) × (n : ℕ) × (payload ≡ arr pages)
    × Pages (items pages) names n
    × IsCounted expected_count n

-- The names of a response are read exactly when it is a list of pages whose rows all have names,
-- and as many rows as expected; they are then the names of the rows in order.
pub extract_filenames_iff :
    (payload : Value) (expected_count : Option ℤ) (names : List String)
    → (extract_filenames payload expected_count ≡ ok names) ↔ Response payload expected_count names
unfolding extract_filenames
extract_filenames_iff (arr pages) expected_count names = (
  λ h.
      let (seen, scanned, checked) = >>=-eq-ok (scan_pages start (items pages)) _ h in
      let (more, n, listed, same, counted) = scan_pages-Pages start (items pages) seen scanned in
      let (as_names, enough) = (check_count_iff expected_count seen names).0 checked in
      (
        pages,
        n,
        refl,
        subst (λ l. Pages (items pages) l n) (sym same ∙ as_names) listed,
        subst (IsCounted expected_count) (counted ∙ omega arith) enough,
      ),
  λ (pages', n, same, listed, enough).
      let here : pages' ≡ pages = cc in
      let there = subst (λ p. Pages (items p) names n) here listed in
      rw (Pages-scan_pages start there) (
        (check_count_iff expected_count _ names).1
          (refl, subst (IsCounted expected_count) (omega arith) enough)),
)
extract_filenames_iff _ expected_count names = (λ h. cc, λ (pages, n, same, _, _). cc)
