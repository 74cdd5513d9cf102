-- ===== src/SearchParams/Laws.antt =====
-- The filters that a URL gives are given again by the URL made of them.
use sahel.Common.{
  ℕ, ◌<◌, ◌≡◌, ◌≢◌, refl, ap, sym, ◌∙◌, inl, inr, Bool, true, false, not, ◌&&◌, Option, some, List,
  [], ◌∷◌, ltb, ◌==◌, arith, Bool-cases, if◌then◌else◌,
}
use sahel.Common.Int.{pos}
use sahel.Common.Lists.{any, all, keep}
use sahel.Js.Text.{Text, codes, same, is_empty, same→eq, is_empty_iff}
use sahel.Js.Text.Trim.{is_space, trim, trim_start, trim_end, trim_idem}
use sahel.Js.Digits.{is_digit, numeral, number-numeral, numeral-is_digit, numeral-ne-nil}
use sahel.Money.{span_digits}
use sahel.SearchParams.{
  Filters, Param, missing, single, repeated, Raw, first, one_of, exact_bound, whole, magnitude,
  of_digits, of_signed, parse_int, positive, number_text, or_one, parse_search_params, Entries,
  count_text, candidates, filters_to_query, unit_types, unit_views, sorts,
}

-- The page's parameters for the entries of a query: the first value under a name.
abbrev pub params : Entries → Raw
params [] key = missing
params ((k, v) ∷ es) key = if same k key then single v else params es key

abbrev get : Text → Entries → Text
get key [] = []
get key ((k, v) ∷ es) = if same k key then v else get key es

abbrev absent : Text → Entries → Bool
absent key [] = true
absent key ((k, v) ∷ es) = not (same k key) && absent key es

abbrev distinct : Entries → Bool
distinct [] = true
distinct ((k, v) ∷ es) = absent k es && distinct es

abbrev full_entries : Entries → Entries
full_entries es = keep (λ e. not (is_empty e.1)) es

params-absent :
    (key : Text) (es : Entries) → absent key es ≡ true → params (full_entries es) key ≡ missing
params-absent key [] h = refl
params-absent key ((k, v) ∷ es) h =
    let rest : params (full_entries es) key ≡ missing = params-absent key es (ground arith) in
    let other : same k key ≡ false = ground arith in
    elim (Bool-cases (is_empty v)) [ inl e ↦ rw e rest | inr e ↦ rw (e, other) rest ]

trim_nil : trim [] ≡ []
unfolding trim trim_start trim_end
trim_nil = refl

-- A missing value is read as an empty one.
first-params :
    (key : Text) (es : Entries)
    → distinct es ≡ true
    → first (params (full_entries es) key) ≡ trim (get key es)
unfolding first
first-params key [] h = sym trim_nil
first-params key ((k, v) ∷ es) h =
    let rest : first (params (full_entries es) key) ≡ trim (get key es) =
      first-params key es (ground arith) in
    let once : absent k es ≡ true = ground arith in
    elim (Bool-cases (same k key)) [
      | inl here ↦ elim (Bool-cases (is_empty v)) [
        | inl blank ↦
            let gone : params (full_entries es) key ≡ missing =
              params-absent key es (rw (same→eq k key here) at once) in
            let empty : v ≡ [] = (is_empty_iff v).0 blank in
            rw (here, blank, gone, empty, trim_nil) refl
        | inr full ↦ rw (here, full, here) refl
      ]
      | inr other ↦ elim (Bool-cases (is_empty v)) [
        | inl blank ↦ rw (other, blank) rest
        | inr full ↦ rw (other, full, other) rest
      ]
    ]

trim_end_digits : (s : Text) → all is_digit s ≡ true → trim_end s ≡ s
unfolding trim_end is_digit is_space
trim_end_digits [] h = refl
trim_end_digits (c ∷ s) h = ground (arith, trim_end_digits s)

trim_start_digits : (s : Text) → all is_digit s ≡ true → trim_start s ≡ s
unfolding trim_start is_digit is_space
trim_start_digits [] h = refl
trim_start_digits (c ∷ s) h = ground arith

trim_digits : (s : Text) → all is_digit s ≡ true → trim s ≡ s
unfolding trim
trim_digits s h = rw (trim_start_digits s h) (trim_end_digits s h)

span_all : (s : Text) → all is_digit s ≡ true → (span_digits s).0 ≡ s
unfolding span_digits
span_all [] h = refl
span_all (c ∷ s) h =
    let here : is_digit c ≡ true = ground arith in
    rw here (ap (λ t. c ∷ t) (span_all s (ground arith)))

or_one_full : (n : ℕ) → (or_one n == 0) ≡ false
or_one_full n = ground arith

first_trimmed : (p : Param) → trim (first p) ≡ first p
unfolding first
first_trimmed missing = trim_nil
first_trimmed (single v) = trim_idem v
first_trimmed (repeated []) = trim_nil
first_trimmed (repeated (v ∷ vs)) = trim_idem v

one_of-nil : (allowed : List Text) → one_of [] allowed ≡ []
unfolding one_of
one_of-nil allowed = elim (Bool-cases (any (λ a. same a []) allowed)) [
  | inl e ↦ rw e refl
  | inr e ↦ rw e refl
]

one_of_again :
    (p : Param) (allowed : List Text)
    → one_of (trim (one_of (first p) allowed)) allowed ≡ one_of (first p) allowed
unfolding one_of
one_of_again p allowed = elim (Bool-cases (any (λ a. same a (first p)) allowed)) [
  | inl e ↦ rw (e, first_trimmed p, e) refl
  | inr e ↦ rw (e, trim_nil) (one_of-nil allowed)
]

-- The numbers are small enough for doubles to hold them and all below them.
abbrev pub AreExact : Filters → Type 0
AreExact f =
    (f.guests < exact_bound)
    × (f.bedrooms < exact_bound)
    × (f.max_sea_distance < exact_bound)
    × (f.page < exact_bound)

module _ (large : Text → Option ℕ) (to_string : ℕ → Text) where
  magnitude-digits : (n : ℕ) → n < exact_bound → magnitude large (numeral n) ≡ some n
  unfolding magnitude
  magnitude-digits n h =
      let q = number-numeral n in
      let small : ltb n exact_bound ≡ true = ground (arith, h) in rw (q, small) refl

  of_signed-digits :
      (s : Text) → all is_digit s ≡ true → s ≢ [] → of_signed large s ≡ of_digits large false s
  unfolding is_empty
  of_signed-digits [] h full = absurd (full refl)
  of_signed-digits (c ∷ s) h full =
      let minus : (c == b'-') ≡ false = unfold is_digit in ground arith in
      let plus : (c == b'+') ≡ false = unfold is_digit in ground arith in
      rw (minus, plus, span_all (c ∷ s) h) refl

  of_digits-full :
      (s : Text) (n : ℕ)
      → s ≢ []
      → magnitude large s ≡ some n
      → of_digits large false s ≡ whole (pos n)
  unfolding is_empty
  of_digits-full [] n full h = absurd (full refl)
  of_digits-full (c ∷ s) n full h = rw h refl

  positive-numeral : (n : ℕ) → n < exact_bound → positive large (trim (numeral n)) ≡ n
  unfolding positive parse_int
  positive-numeral n h =
      let ds = numeral-is_digit n in
      let full = numeral-ne-nil n in
      rw
        (
          trim_digits (numeral n) ds,
          trim_start_digits (numeral n) ds,
          of_signed-digits (numeral n) ds full,
          of_digits-full (numeral n) n full (magnitude-digits n h),
        )
        refl

  positive-nil : positive large (trim []) ≡ 0
  unfolding positive parse_int trim_start trim_end trim is_empty
  positive-nil = refl

  number_text-exact : (n : ℕ) → n < exact_bound → number_text to_string n ≡ numeral n
  number_text-exact n h = let small : ltb n exact_bound ≡ true = ground (arith, h) in rw small refl

  positive-count_text :
      (n : ℕ) → n < exact_bound → positive large (trim (count_text to_string n)) ≡ n
  positive-count_text n h = elim (Bool-cases (n == 0)) [
    | inl e ↦ let q : n ≡ 0 = ground arith in rw e (positive-nil ∙ sym q)
    | inr e ↦ rw (e, number_text-exact n h) (positive-numeral n h)
  ]

  page_lem :
      (n : ℕ)
      → n < exact_bound
      → (n == 0) ≡ false
      → or_one (positive large (trim (if ltb 1 n then number_text to_string n else []))) ≡ n
  page_lem n small h = elim (Bool-cases (ltb 1 n)) [
    | inl e ↦ rw (e, number_text-exact n small, positive-numeral n small, h) refl
    | inr e ↦ let q : n ≡ 1 = ground arith in rw (e, positive-nil) (sym q)
  ]

  read_again :
      (f : Filters) (page : ℕ) (key : Text)
      → first (params (filters_to_query to_string f page) key)
        ≡ trim (get key (candidates to_string f page))
  unfolding filters_to_query same
  read_again f page key = first-params key (candidates to_string f page) refl

  reread :
      (f : Filters) (page : ℕ)
      → parse_search_params large (params (filters_to_query to_string f page)) ≡ record {
        area = trim f.area;
        compound = trim f.compound;
        kind = one_of (trim f.kind) unit_types;
        view = one_of (trim f.view) unit_views;
        guests = positive large (trim (count_text to_string f.guests));
        bedrooms = positive large (trim (count_text to_string f.bedrooms));
        max_sea_distance = positive large (trim (count_text to_string f.max_sea_distance));
        sort = one_of (trim f.sort) sorts;
        page =
            or_one (positive large (trim (if ltb 1 page then number_text to_string page else [])));
      }
  unfolding same parse_search_params
  reread f page =
      rw
        (
          read_again f page (codes "area"),
          read_again f page (codes "compound"),
          read_again f page (codes "type"),
          read_again f page (codes "view"),
          read_again f page (codes "guests"),
          read_again f page (codes "bedrooms"),
          read_again f page (codes "maxSeaDistance"),
          read_again f page (codes "sort"),
          read_again f page (codes "page"),
        )
        refl

  -- Whatever a URL asks for, as long as the numbers read from it are below 2 ^ 53: the filters
  -- that are read from it make a query from which the same filters are read, however larger
  -- numbers are read and printed.
  pub parse_search_params-filters_to_query :
      (raw : Raw)
      → AreExact (parse_search_params large raw)
      → parse_search_params large (
          params (
            filters_to_query to_string
              (parse_search_params large raw)
              (parse_search_params large raw).page))
        ≡ parse_search_params large raw
  unfolding parse_search_params
  parse_search_params-filters_to_query raw (guests, bedrooms, distance, page) =
      reread (parse_search_params large raw) (parse_search_params large raw).page
      ∙ rw
          (
            first_trimmed (raw (codes "area")),
            first_trimmed (raw (codes "compound")),
            one_of_again (raw (codes "type")) unit_types,
            one_of_again (raw (codes "view")) unit_views,
            one_of_again (raw (codes "sort")) sorts,
            positive-count_text (positive large (first (raw (codes "guests")))) guests,
            positive-count_text (positive large (first (raw (codes "bedrooms")))) bedrooms,
            positive-count_text (positive large (first (raw (codes "maxSeaDistance")))) distance,
            page_lem (or_one (positive large (first (raw (codes "page"))))) page
                (or_one_full (positive large (first (raw (codes "page"))))),
          )
          refl
