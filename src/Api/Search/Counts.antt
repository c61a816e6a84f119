-- ===== src/Api/Search/Counts.antt =====
-- The metrics of a series of searches, and the size of their pages.
use grepod.Prelude.{
  ℕ, suc, ◌+◌, ◌≤◌, ◌≡◌, refl, Option, none, some, List, [], ◌∷◌, length, nat_beq, if◌then◌else◌,
  Text, arith, subst, sym, All,
}
use grepod.Prelude.Int.{ℤ}
use grepod.Metrics.{Metrics}
use grepod.Storage.Line.{Time}
use grepod.Storage.Ranks.{Ranks}
use grepod.Storage.Search.{Engine, SearchPage}
use grepod.Storage.Search.Size.{Fits, search-Fits}
use grepod.Api.{Body, Response, json}
use grepod.Api.Search.{
  SearchResponse, DateRange, invalid, valid, count_search, count_search_error, answer, search_range,
  read_dates, options_of, start_text, end_text, handle_search,
}

module _ (ranks : Ranks) where
  -- A request to handleSearch, with what it meets.
  pub record Call : Type 0 where
    pub engine : Engine ranks
    pub reason : Text
    pub elapsed : ℕ
    pub now : Time
    pub get : Text → Text

  -- The responses to some requests, one after the other, and the metrics behind them.
  pub serve :
      ℤ → List Call → Option Metrics → List (Response (SearchResponse ranks)) × Option Metrics
  serve days [] metrics = ([], metrics)
  serve days (c ∷ calls) metrics =
      let (r, metrics') =
        handle_search ranks c.engine c.reason c.elapsed days c.now c.get metrics in
      let (rs, metrics'') = serve days calls metrics' in (r ∷ rs, metrics'')

  -- How many responses have a status.
  abbrev pub served : ℕ → List (Response (SearchResponse ranks)) → ℕ
  served status [] = 0
  served status (r ∷ rs) =
      if nat_beq r.status status then suc (served status rs) else served status rs

  -- A page is counted, and within the limit.
  abbrev pub IsSmall : Body (SearchResponse ranks) → Type 0
  IsSmall (json b) = (b.count ≡ length b.results) × (b.count ≤ 500)
  IsSmall _ = Unit

  -- What the metrics gain by responses.
  pub record Counted (rs : List (Response (SearchResponse ranks))) (m m' : Metrics) : Type 0 where
    pub requests :
        m'.search_requests_total ≡ m.search_requests_total + served 200 rs + served 500 rs
    pub errors : m'.search_errors_total ≡ m.search_errors_total + served 500 rs
    pub durations :
        length m'.search_duration ≡ length m.search_duration + served 200 rs + served 500 rs
    pub pages : All (λ r. IsSmall r.body) rs
    pub rejected : length rs ≡ served 200 rs + served 400 rs + served 500 rs

  answer-Counted :
      (reason : Text) (elapsed : ℕ) (start_str end_str : Text) (get : Text → Text) (m : Metrics)
      (o : Option (SearchPage ranks))
      → Fits ranks 500 o
      → let r = answer ranks reason elapsed start_str end_str get (some m) o in
        (m' : Metrics) × (r.1 ≡ some m') × Counted (r.0 ∷ []) m m'
  unfolding answer count_search count_search_error
  answer-Counted reason elapsed start_str end_str get m none fits = (
    _,
    refl,
    record {
      pages = (tt, tt);
      requests = omega arith;
      errors = omega arith;
      durations = omega arith;
      rejected = omega arith;
    },
  )
  answer-Counted reason elapsed start_str end_str get m (some page) fits = (
    _,
    refl,
    record {
      pages = ((refl, fits), tt);
      requests = omega arith;
      errors = omega arith;
      durations = omega arith;
      rejected = omega arith;
    },
  )

  search_range-Counted :
      (engine : Engine ranks) (reason : Text) (elapsed : ℕ) (start_str end_str : Text)
      (get : Text → Text) (m : Metrics) (range : DateRange)
      → let r = search_range ranks engine reason elapsed start_str end_str get (some m) range in
        (m' : Metrics) × (r.1 ≡ some m') × Counted (r.0 ∷ []) m m'
  unfolding search_range
  search_range-Counted engine reason elapsed start_str end_str get m (invalid msg) = (
    m,
    refl,
    record {
      pages = (tt, tt);
      requests = omega arith;
      errors = omega arith;
      durations = omega arith;
      rejected = omega arith;
    },
  )
  search_range-Counted engine reason elapsed start_str end_str get m (valid start end) =
      answer-Counted reason elapsed start_str end_str get m _
        (search-Fits ranks engine (options_of start end get))

  served-more :
      (status : ℕ) (r : Response (SearchResponse ranks))
      (rs : List (Response (SearchResponse ranks)))
      → served status (r ∷ rs) ≡ served status (r ∷ []) + served status rs
  served-more status r rs = ground arith

  more_Counted :
      (r : Response (SearchResponse ranks)) (rs : List (Response (SearchResponse ranks)))
      (m m' m'' : Metrics)
      → Counted (r ∷ []) m m'
      → Counted rs m' m''
      → Counted (r ∷ rs) m m''
  more_Counted r rs m m' m'' h k = record {
    pages = (h.pages.0, k.pages);
    requests = omega (arith, h.requests, k.requests, served-more 200 r rs, served-more 500 r rs);
    errors = omega (arith, h.errors, k.errors, served-more 500 r rs);
    durations = omega (arith, h.durations, k.durations, served-more 200 r rs, served-more 500 r rs);
    rejected = omega (
      arith,
      h.rejected,
      k.rejected,
      served-more 200 r rs,
      served-more 400 r rs,
      served-more 500 r rs,
    );
  }

  -- Over any requests to handleSearch, one after the other, whatever the store answers: each response has
  -- the status 200, 400 or 500; the request counter and the duration histogram gain one for each response
  -- with 200 or 500, and the error counter one for each with 500; and each page has the count of its
  -- results, which is 500 at most.
  pub searches-Counted :
      (days : ℤ) (calls : List Call) (m : Metrics)
      → let served_all = serve days calls (some m) in
        (m' : Metrics) × (served_all.1 ≡ some m') × Counted served_all.0 m m'
  unfolding serve handle_search
  searches-Counted days [] m = (
    m,
    refl,
    record {
      pages = tt;
      requests = omega arith;
      errors = omega arith;
      durations = omega arith;
      rejected = omega arith;
    },
  )
  searches-Counted days (c ∷ calls) m =
      let (m', e, h) =
        search_range-Counted c.engine c.reason c.elapsed (start_text days c.now c.get)
          (end_text c.now c.get) c.get m
          (read_dates (start_text days c.now c.get) (end_text c.now c.get)) in
      let (m'', e', k) = searches-Counted days calls m' in
      subst
        (λ o.
          (x : Metrics) × ((serve days calls o).1 ≡ some x)
          × Counted
              ((handle_search ranks c.engine c.reason c.elapsed days c.now c.get (some m)).0
                ∷ (serve days calls o).0)
              m x)
        (sym e) (m'', e', more_Counted _ _ m m' m'' h k)
