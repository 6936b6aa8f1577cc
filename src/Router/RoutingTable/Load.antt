-- ===== src/Router/RoutingTable/Load.antt =====
-- Loading the routing table from its file.
use computer_networks.Prelude.{
  ℕ, ◌<◌, ◌≡◌, ◌⊎◌, take-eq_self, List, [], ◌∷◌, ◌++◌, Option, none, some, true, false,
  if◌then◌else◌, arith, refl, length, returns, ap, ◌∙◌, sym, Bool,
}
use mathlib.Core.List.{append-nil, append_assoc}
use computer_networks.Router.Interfaces.{sr_iface_namelen}
use computer_networks.Router.RoutingTable.{
  Route, make_route, sr_add_rt_entry, words_from, Buffers, no_buffers, scan, load_line, load_lines,
  sr_load_rt,
}

pub sr_add_rt_entry-append :
    (table : List Route) (dest gw mask : ℕ) (if_name : List ℕ)
    → sr_add_rt_entry table dest gw mask if_name ≡ table ++ make_route dest gw mask if_name ∷ []
unfolding sr_add_rt_entry
sr_add_rt_entry-append [] dest gw mask if_name = refl
sr_add_rt_entry-append (r ∷ rest) dest gw mask if_name =
    ap (◌∷◌ r) (sr_add_rt_entry-append rest dest gw mask if_name)

module _ (inet_aton : List ℕ → Option ℕ) where
  -- The line has at least four words, each of which fits its array, the first three of them
  -- addresses; the route is made of the four.
  pub record Denotes (line : List ℕ) (r : Route) : Type 0 where
    pub d : List ℕ
    pub g : List ℕ
    pub m : List ℕ
    pub i : List ℕ
    pub more : List (List ℕ)
    pub split : words_from [] line ≡ d ∷ g ∷ m ∷ i ∷ more
    pub short : (length d < 32) × (length g < 32) × (length m < 32) × (length i < 32)
    pub is_dest : inet_aton d ≡ some r.dest
    pub is_gw : inet_aton g ≡ some r.gw
    pub is_mask : inet_aton m ≡ some r.mask
    pub is_interface : r.interface ≡ i

  -- The line has at least four words, each of which fits its array, and one of the first three is
  -- no address.
  pub record IsMalformed (line : List ℕ) : Type 0 where
    pub d : List ℕ
    pub g : List ℕ
    pub m : List ℕ
    pub i : List ℕ
    pub more : List (List ℕ)
    pub split : words_from [] line ≡ d ∷ g ∷ m ∷ i ∷ more
    pub short : (length d < 32) × (length g < 32) × (length m < 32) × (length i < 32)
    pub no_address : (inet_aton d ≡ none) ⊎ ((inet_aton g ≡ none) ⊎ (inet_aton m ≡ none))

  -- The lines denote the routes, one for one.
  abbrev pub Denote : List (List ℕ) → List Route → Type 0
  Denote [] [] = Unit {0}
  Denote [] (r ∷ rs) = ⊥
  Denote (line ∷ lines) [] = ⊥
  Denote (line ∷ lines) (r ∷ rs) = Denotes line r × Denote lines rs

abbrev four : List ℕ → List ℕ → List ℕ → List ℕ → Buffers
four d g m i = record { dest = some d; gw = some g; mask = some m; iface = some i }

scan-four :
    (b : Buffers) (d g m i : List ℕ) (more : List (List ℕ))
    → (length d < 32) × (length g < 32) × (length m < 32) × (length i < 32)
    → scan b (d ∷ g ∷ m ∷ i ∷ more) ≡ returns (four d g m i)
unfolding scan
scan-four b d g m i more h = ground arith

module _ (inet_aton : List ℕ → Option ℕ) where
  load_line_ok :
      (cleared : Bool) (table : List Route) (line : List ℕ) (r : Route)
      (h : Denotes inet_aton line r)
      → load_line inet_aton (four h.d h.g h.m h.i) cleared table
        ≡ returns (some ((if cleared then table else []) ++ r ∷ []))
  unfolding load_line
  load_line_ok cleared table line r h =
      let base = if cleared then table else [] in
      ground (
        arith,
        h.is_dest,
        h.is_gw,
        h.is_mask,
        h.is_interface,
        take-eq_self sr_iface_namelen h.i (omega (arith, h.short)),
        sr_add_rt_entry-append base r.dest r.gw r.mask h.i,
      )

  load_line_malformed :
      (cleared : Bool) (table : List Route) (line : List ℕ) (h : IsMalformed inet_aton line)
      → load_line inet_aton (four h.d h.g h.m h.i) cleared table ≡ returns none
  unfolding load_line
  load_line_malformed cleared table line h = ground (arith, h.no_address)

  load_lines_ok :
      (b : Buffers) (cleared : Bool) (table : List Route) (line : List ℕ) (r : Route)
      (rest : List (List ℕ)) (h : Denotes inet_aton line r)
      → load_lines inet_aton b cleared table (line ∷ rest)
        ≡ load_lines inet_aton
            (four h.d h.g h.m h.i)
            true
            ((if cleared then table else []) ++ r ∷ [])
            rest
  unfolding load_lines
  load_lines_ok b cleared table line r rest h =
      rw (h.split, scan-four b h.d h.g h.m h.i h.more h.short, load_line_ok cleared table line r h)

  load_lines_malformed :
      (b : Buffers) (cleared : Bool) (table : List Route) (line : List ℕ) (rest : List (List ℕ))
      (h : IsMalformed inet_aton line)
      → load_lines inet_aton b cleared table (line ∷ rest) ≡ returns (false, table)
  unfolding load_lines
  load_lines_malformed b cleared table line rest h = rw (
    h.split,
    scan-four b h.d h.g h.m h.i h.more h.short,
    load_line_malformed cleared table line h,
  )

  -- The table while `cleared` tells whether a line was loaded before, after more were.
  abbrev pub loaded : Bool → List Route → List Route → List Route
  loaded cleared table [] = table
  loaded cleared table (r ∷ rs) = (if cleared then table else []) ++ r ∷ rs

  load_lines-Denote :
      (lines : List (List ℕ)) (rs : List Route) (b : Buffers) (cleared : Bool) (table : List Route)
      (rest : List (List ℕ))
      → Denote inet_aton lines rs
      → (b' : Buffers) × (cleared' : Bool) × (load_lines inet_aton b cleared table (lines ++ rest)
          ≡ load_lines inet_aton b' cleared' (loaded cleared table rs) rest)
  load_lines-Denote [] [] b cleared table rest h = (b, cleared, refl)
  load_lines-Denote [] (r ∷ rs) b cleared table rest h = absurd h
  load_lines-Denote (line ∷ lines) [] b cleared table rest h = absurd h
  load_lines-Denote (line ∷ lines) (r ∷ rs) b cleared table rest (h, hs) =
      let base = if cleared then table else [] in
      let ih = load_lines-Denote lines rs (four h.d h.g h.m h.i) true (base ++ r ∷ []) rest hs in
      (
        ih.0,
        ih.1,
        load_lines_ok b cleared table line r (lines ++ rest) h
            ∙ ih.2
            ∙ ap (λ t. load_lines inet_aton ih.0 ih.1 t rest) (regroup base rs),
      )
    where
      regroup :
          (base : List Route) (rs : List Route) → loaded true (base ++ r ∷ []) rs ≡ base ++ r ∷ rs
      regroup base [] = refl
      regroup base (s ∷ rs) = append_assoc base (r ∷ []) (s ∷ rs)

  -- A file whose lines all denote routes replaces the table by those routes, in their order, and
  -- the call returns 0; an empty file leaves the table.
  pub sr_load_rt_ok :
      (table : List Route) (lines : List (List ℕ)) (rs : List Route)
      → Denote inet_aton lines rs
      → sr_load_rt inet_aton table (some lines) ≡ returns (true, loaded false table rs)
  unfolding sr_load_rt load_lines
  sr_load_rt_ok table lines rs h =
      let l = load_lines-Denote lines rs no_buffers false table [] h in
      let e : lines ++ [] ≡ lines = append-nil lines in
      ap (load_lines inet_aton no_buffers false table) (sym e) ∙ l.2

  -- At a malformed line the call returns -1; what the lines before it denote has replaced the table
  -- by then.
  pub sr_load_rt_malformed :
      (table : List Route) (lines : List (List ℕ)) (rs : List Route) (line : List ℕ)
      (rest : List (List ℕ))
      → Denote inet_aton lines rs
      → IsMalformed inet_aton line
      → sr_load_rt inet_aton table (some (lines ++ line ∷ rest))
        ≡ returns (false, loaded false table rs)
  unfolding sr_load_rt
  sr_load_rt_malformed table lines rs line rest h m =
      let l = load_lines-Denote lines rs no_buffers false table (line ∷ rest) h in
      l.2 ∙ load_lines_malformed l.0 l.1 (loaded false table rs) line rest m
