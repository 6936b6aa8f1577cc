-- ===== src/Router/RoutingTable.antt =====
-- Assignment2/src/router/sr_rt.c, the routing table and its file, and `find_rt_dest` of
-- Assignment2/src/router/sr_router.c, the search for the route of a packet.
-- The linked list is a list, in its order. A file is the list of the lines that `fgets` returns.
pub mod Load
pub mod Longest
use Prim.Native.Nat.{bit_and}
use computer_networks.Prelude.{
  ℕ, zero, suc, ◌+◌, List, [], ◌∷◌, ◌++◌, Option, none, some, Bool, true, false, if◌then◌else◌,
  ◌==◌, ◌&&◌, ◌||◌, not, ltb, leb, take, length, Outcome, returns, undefined, ◌>>=◌,
}
use computer_networks.Router.Interfaces.{sr_iface_namelen, strncpy}

-- `struct sr_rt`, the addresses as they lie in `s_addr`.
pub record Route : Type 0 where
  pub dest : ℕ
  pub gw : ℕ
  pub mask : ℕ
  pub interface : List ℕ

abbrev pub make_route : ℕ → ℕ → ℕ → List ℕ → Route
make_route dest gw mask if_name = record {
  dest = dest;
  gw = gw;
  mask = mask;
  interface = strncpy sr_iface_namelen if_name;
}

pub sr_add_rt_entry : List Route → ℕ → ℕ → ℕ → List ℕ → List Route
sr_add_rt_entry [] dest gw mask if_name = make_route dest gw mask if_name ∷ []
sr_add_rt_entry (r ∷ rest) dest gw mask if_name = r ∷ sr_add_rt_entry rest dest gw mask if_name

-- `isspace`, by which `%s` splits.
abbrev pub is_space : ℕ → Bool
is_space c = c == 32 || (leb 9 c && leb c 13)

-- The words of a line; the first argument holds the characters of the word under way.
unfoldable pub words_from : List ℕ → List ℕ → List (List ℕ)
words_from [] [] = []
words_from (w ∷ word) [] = (w ∷ word) ∷ []
words_from word (c ∷ line) =
    let more = words_from (word ++ c ∷ []) line in
    let next = words_from [] line in
    if is_space c then (elim word [ [] ↦ next | w ∷ rest ↦ (w ∷ rest) ∷ next ]) else more

-- The arrays `dest`, `gw`, `mask` and `iface`; `none` is one that nothing was written to yet.
pub record Buffers : Type 0 where
  pub dest : Option (List ℕ)
  pub gw : Option (List ℕ)
  pub mask : Option (List ℕ)
  pub iface : Option (List ℕ)

abbrev pub no_buffers : Buffers
no_buffers = record { dest = none; gw = none; mask = none; iface = none }

-- Each array has 32 characters, the terminator among them.
abbrev pub fits : List ℕ → Bool
fits word = ltb (length word) 32

-- `sscanf(line,"%s %s %s %s",dest,gw,mask,iface)`: as many arrays are written as there are words.
pub scan : Buffers → List (List ℕ) → Outcome Buffers
scan b [] = returns b
scan b (d ∷ []) = if fits d then returns (record b { dest = some d }) else undefined
scan b (d ∷ g ∷ []) =
    if fits d && fits g then returns (record b { dest = some d; gw = some g }) else undefined
scan b (d ∷ g ∷ m ∷ []) =
    if fits d && fits g && fits m
    then returns (record b { dest = some d; gw = some g; mask = some m })
    else undefined
scan b (d ∷ g ∷ m ∷ i ∷ more) =
    if fits d && fits g && fits m && fits i
    then returns (record { dest = some d; gw = some g; mask = some m; iface = some i })
    else undefined

abbrev pub read : Option (List ℕ) → Outcome (List ℕ)
read none = undefined
read (some word) = returns word

-- `inet_aton` is the C library's: the address that a text stands for, or none.
module _ (inet_aton : List ℕ → Option ℕ) where
  -- What the loop does with the buffers of one line: the new table, or none for `return -1`.
  pub load_line : Buffers → Bool → List Route → Outcome (Option (List Route))
  load_line b cleared table = do
    dest ← read b.dest
    elim (inet_aton dest) [
      | none ↦ returns none
      | some d ↦ do
        gw ← read b.gw
        elim (inet_aton gw) [
          | none ↦ returns none
          | some g ↦ do
            mask ← read b.mask
            elim (inet_aton mask) [
              | none ↦ returns none
              | some m ↦ do
                iface ← read b.iface
                returns (some (sr_add_rt_entry (if cleared then table else []) d g m iface))
            ]
        ]
    ]

  -- The loop over the lines: whether it returned 0, and the table as it stands then.
  pub load_lines : Buffers → Bool → List Route → List (List ℕ) → Outcome (Bool × List Route)
  load_lines b cleared table [] = returns (true, table)
  load_lines b cleared table (line ∷ rest) = do
    b' ← scan b (words_from [] line)
    loaded ← load_line b' cleared table
    elim loaded [ none ↦ returns (false, table) | some table' ↦ load_lines b' true table' rest ]

  -- `none` is a file that `access` refuses.
  pub sr_load_rt : List Route → Option (List (List ℕ)) → Outcome (Bool × List Route)
  sr_load_rt table none = returns (false, table)
  sr_load_rt table (some lines) = load_lines no_buffers false table lines

-- What a variable of type `struct sr_rt *` holds.
pub data RoutePointer : Type 0 where
  null : RoutePointer
  to : Route → RoutePointer
  indeterminate : RoutePointer

-- The loop of `find_rt_dest`, over `longest_prefiix_match` and `lpm_mask`.
pub lpm_from : RoutePointer → ℕ → List Route → ℕ → RoutePointer × ℕ
lpm_from longest lpm_mask [] dest_ip = (longest, lpm_mask)
lpm_from longest lpm_mask (curr ∷ rest) dest_ip =
    let better = dest_ip == bit_and curr.mask curr.dest && ltb lpm_mask curr.mask in
    lpm_from (if better then to curr else longest) (if better then curr.mask else lpm_mask) rest
      dest_ip

-- `longest_prefiix_match` is not initialised.
pub find_rt_dest : List Route → ℕ → RoutePointer
unfolding lpm_from
find_rt_dest table dest_ip =
    let (longest, lpm_mask) = lpm_from indeterminate 0 table dest_ip in
    if not (lpm_mask == 0) then null else longest
