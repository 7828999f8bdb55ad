-- ===== src/ChainTests/Networks/Selection.antt =====
-- stack-config.ts, `selectNetwork` and `networkOfStack`: which network is selected, and for which
-- inputs none is.
use Prim.Native.String
use mathlib.Core.Path.{subst}
use polkadot_pop_e2e.Common.{
  List, [], ◌∷◌, ◌↔◌, arith, sym, Any, First, First-map, All-map, find?-First, find?-none, glue,
  drop_suffix, has_suffix, includes, includes→Any, inherited_keys, All, refl, find?, ◌≡◌, ◌≢◌, ◌⊎◌,
  inl, inr, ap, ◌∙◌, String, true, false, Option, none, some, ◌==◌, eq_iff, eq_refl, Bool-cases,
  Option-cases, Result, ok, err,
}
use polkadot_pop_e2e.ChainTests.Networks.{
  is_url, network_keys, NetworkEntry, networks, is_published_at, fork_suffix, Stack, Refusal,
  is_in_networks, network_of_stack, select_network, truthy, default_network, or_default,
  is_published_at, fork_suffix,
}

-- A stack has the URL that an entry publishes at, or forks the stack there.
abbrev pub IsPublished : Stack → NetworkEntry → Type 0
IsPublished stack entry =
    (stack.url ≡ entry.stack_url) ⊎ (stack.descriptor.fork_of ≡ some entry.stack_url)

-- The id of a network, with or without the suffix of a fork.
abbrev pub IsIdOf : String → String → Type 0
IsIdOf key id = (id ≡ glue key fork_suffix) ⊎ ((id ≡ key) × (has_suffix fork_suffix id ≡ false))

-- A key of `NETWORKS`, or a name that every object inherits.
abbrev pub IsKnown : String → Type 0
IsKnown key =
    Any (λ (entry : NetworkEntry). entry.key ≡ key) networks
    ⊎ Any (λ name. name ≡ key) inherited_keys

-- The network that a stack is an instance or a fork of: the first one that publishes at its URL or
-- at the one that it forks, else the one of its id.
pub data IsNetworkOf (stack : Stack) (key : String) : Type 0 where
  by_url :
      First
        (λ entry. ¬ IsPublished stack entry)
        (λ (entry : NetworkEntry). (entry.key ≡ key) × IsPublished stack entry)
        networks
      → IsNetworkOf stack key
  by_id :
      All (λ entry. ¬ IsPublished stack entry) networks
      → IsIdOf key stack.descriptor.id
      → IsKnown key
      → IsNetworkOf stack key

-- No entry publishes the stack, and its id is that of no known network.
pub record HasNoNetwork (stack : Stack) : Type 0 where
  pub unpublished : All (λ entry. ¬ IsPublished stack entry) networks
  pub key : String
  pub is_id : IsIdOf key stack.descriptor.id
  pub is_unknown : ¬ IsKnown key

-- What `selectNetwork` refuses.
pub data IsRefused : Option String → Option Stack → Type 0 where
  unknown :
      {network : Option String} {stack : Option Stack} (key : String)
      → truthy network ≡ some key
      → ¬ IsKnown key
      → IsRefused network stack
  conflict :
      {network : Option String} (stack : Stack) (key found : String)
      → truthy network ≡ some key
      → IsNetworkOf stack found
      → key ≢ found
      → IsRefused network (some stack)
  unmatched :
      {network : Option String} (stack : Stack)
      → truthy network ≡ none
      → HasNoNetwork stack
      → IsRefused network (some stack)

-- What it selects: the known network asked for, else that of the stack, else the default. An empty
-- `NETWORK` without a stack is passed on.
pub data IsSelected : Option String → Option Stack → String → Type 0 where
  asked :
      {network : Option String} (key : String)
      → truthy network ≡ some key
      → IsKnown key
      → IsSelected network none key
  agreed :
      {network : Option String} (stack : Stack) (key : String)
      → truthy network ≡ some key
      → IsKnown key
      → IsNetworkOf stack key ⊎ HasNoNetwork stack
      → IsSelected network (some stack) key
  of_stack :
      {network : Option String} (stack : Stack) (key : String)
      → truthy network ≡ none
      → IsNetworkOf stack key
      → IsSelected network (some stack) key
  by_default : IsSelected none none default_network
  empty : IsSelected (some "") none ""

abbrev pub Answers : Option String → Option Stack → Result Refusal String → Type 0
Answers network stack (ok key) = IsSelected network stack key
Answers network stack (err refusal) = IsRefused network stack

includes-of_Any :
    (names : List String) (key : String) → Any (λ n. n ≡ key) names → includes names key ≡ true
includes-of_Any [] key h = absurd h
includes-of_Any (n ∷ names) key (inl e) = let yes = (eq_iff n key).1 e in rw yes refl
includes-of_Any (n ∷ names) key (inr h) =
    let later = includes-of_Any names key h in ground (arith, later)

is_in_networks-IsKnown : (key : String) → is_in_networks key ≡ true → IsKnown key
is_in_networks-IsKnown key h = elim (Bool-cases (includes network_keys key)) [
  | inl e ↦ inl (includes→Any network_keys key e)
  | inr e ↦ inr (includes→Any inherited_keys key (ground arith))
]

is_in_networks-false : (key : String) → is_in_networks key ≡ false → ¬ IsKnown key
is_in_networks-false key h (inl named) =
    let yes = includes-of_Any network_keys key named in absurd (ground arith)
is_in_networks-false key h (inr named) =
    let yes = includes-of_Any inherited_keys key named in absurd (ground arith)

drop_suffix_lem :
    (suffix s : String)
    → (s ≡ glue (drop_suffix suffix s) suffix)
      ⊎ ((s ≡ drop_suffix suffix s) × (has_suffix suffix s ≡ false))
drop_suffix_lem suffix String.[] = elim (Bool-cases ("" == suffix)) [
  | inl e ↦ inl ((eq_iff "" suffix).0 e)
  | inr e ↦ inr (refl, e)
]
drop_suffix_lem suffix (String.◌∷◌ c s) = elim (Bool-cases (String.◌∷◌ c s == suffix)) [
  | inl e ↦ rw e (inl ((eq_iff (String.◌∷◌ c s) suffix).0 e))
  | inr e ↦ elim (drop_suffix_lem suffix s) [
    | inl whole ↦ rw e (inl (ap (λ t. String.◌∷◌ c t) whole))
    | inr (same, ends) ↦ rw e (inr (ap (λ t. String.◌∷◌ c t) same, ends))
  ]
]

is_url_iff :
    (o : Option String) (published : String) → (is_url o published ≡ true) ↔ (o ≡ some published)
is_url_iff none published = (λ h. cc, λ h. cc)
is_url_iff (some url) published = (
  λ h. ap some ((eq_iff url published).0 h),
  λ h. let same : url ≡ published = cc in (eq_iff url published).1 same,
)

is_published_at_iff :
    (stack : Stack) (entry : NetworkEntry)
    → (is_published_at stack entry ≡ true) ↔ IsPublished stack entry
is_published_at_iff stack entry = (
  λ h. elim (Bool-cases (stack.url == entry.stack_url)) [
    | inl e ↦ inl ((eq_iff stack.url entry.stack_url).0 e)
    | inr e ↦
        inr ((is_url_iff stack.descriptor.fork_of entry.stack_url).0 (rw (e, is_published_at) at h))
  ],
  λ is. elim is [
    | inl e ↦ let same = (eq_iff stack.url entry.stack_url).1 e in rw (same, is_published_at) refl
    | inr e ↦
        let same = (is_url_iff stack.descriptor.fork_of entry.stack_url).1 e in
        elim (Bool-cases (stack.url == entry.stack_url)) [
          | inl here ↦ rw (here, is_published_at) refl
          | inr there ↦ rw (there, is_published_at) same
        ]
  ],
)

is_published_at-false :
    (stack : Stack) (entry : NetworkEntry)
    → is_published_at stack entry ≡ false
    → ¬ IsPublished stack entry
is_published_at-false stack entry h is =
    let yes = (is_published_at_iff stack entry).1 is in absurd (cc)

network_of_stack-IsNetworkOf :
    (stack : Stack) (key : String) → network_of_stack stack ≡ some key → IsNetworkOf stack key
unfolding network_of_stack
network_of_stack-IsNetworkOf stack key h =
    let id = drop_suffix fork_suffix stack.descriptor.id in
    elim (Option-cases (find? (is_published_at stack) networks)) [
      | inr (entry, e) ↦
          let found : some entry.key ≡ some key = rw e at h in
          let named : entry.key ≡ key = cc in
          by_url (
            First-map (λ x. is_published_at stack x ≡ false) (λ x. ¬ IsPublished stack x)
              (λ x. (x ≡ entry) × (is_published_at stack x ≡ true))
              (λ (x : NetworkEntry). (x.key ≡ key) × IsPublished stack x)
              (is_published_at-false stack)
              (λ x (same, passes). (
                ap (λ (y : NetworkEntry). y.key) same ∙ named,
                (is_published_at_iff stack x).0 passes,
              ))
              networks (find?-First (is_published_at stack) networks entry e))
      | inl e ↦ elim (Bool-cases (is_in_networks id)) [
        | inr other ↦ let no : none ≡ some key = rw (e, other) at h in absurd (cc)
        | inl known ↦
            let found : some id ≡ some key = rw (e, known) at h in
            let named : id ≡ key = cc in
            subst (IsNetworkOf stack) named (
              by_id
                (All-map _ _ (is_published_at-false stack) networks
                  (find?-none (is_published_at stack) networks e))
                (drop_suffix_lem fork_suffix stack.descriptor.id) (is_in_networks-IsKnown id known))
      ]
    ]

network_of_stack-HasNoNetwork : (stack : Stack) → network_of_stack stack ≡ none → HasNoNetwork stack
unfolding network_of_stack
network_of_stack-HasNoNetwork stack h =
    let id = drop_suffix fork_suffix stack.descriptor.id in
    elim (Option-cases (find? (is_published_at stack) networks)) [
      | inr (entry, e) ↦ let no : some entry.key ≡ none = rw e at h in absurd (cc)
      | inl e ↦ elim (Bool-cases (is_in_networks id)) [
        | inl known ↦ let no : some id ≡ none = rw (e, known) at h in absurd (cc)
        | inr other ↦ record {
          unpublished =
              All-map _ _ (is_published_at-false stack) networks
                (find?-none (is_published_at stack) networks e);
          key = id;
          is_id = drop_suffix_lem fork_suffix stack.descriptor.id;
          is_unknown = is_in_networks-false id other;
        }
      ]
    ]

module _ (network : Option String) where
  truthy-none : truthy network ≡ none → (network ≡ none) ⊎ (network ≡ some "")
  truthy-none = elim (Option-cases network) [
    | inl e ↦ λ h. inl e
    | inr (s, e) ↦ rw e (λ h. elim (Bool-cases (s == "")) [
      | inl blank ↦ inr (ap some ((eq_iff s "").0 blank))
      | inr set ↦ let no : some s ≡ none = rw set at h in absurd (cc)
    ])
  ]

  truthy-some : (key : String) → truthy network ≡ some key → network ≡ some key
  truthy-some key = elim (Option-cases network) [
    | inl e ↦ rw e (λ h. cc)
    | inr (s, e) ↦ rw e (λ h. elim (Bool-cases (s == "")) [
      | inl blank ↦ let no : none ≡ some key = rw blank at h in absurd (cc)
      | inr set ↦ rw set at h
    ])
  ]

  -- A call of `selectNetwork` returns the network that is asked for, else that of the stack, else
  -- the default, and it refuses an unknown network, two that differ, and a stack that matches none
  -- when no network is asked for. A network is known that is a key of the table or a name that every
  -- object inherits, such as `toString`. The network of a stack is the first that publishes at its
  -- URL or at the one that it forks, else the known one that its id names, less the suffix of a fork.
  -- An empty `NETWORK` counts as none, but without a stack it is returned.
  pub select_network_lem :
      (stack : Option Stack) → Answers network stack (select_network network stack)
  unfolding select_network
  select_network_lem none = elim (Option-cases (truthy network)) [
    | inl unset ↦
        rw unset (elim (truthy-none unset) [ inl e ↦ rw e by_default | inr e ↦ rw e empty ])
    | inr (key, set) ↦ elim (Bool-cases (is_in_networks key)) [
      | inl known ↦
          rw (set, known)
            (default_of (truthy-some key set) (asked key set (is_in_networks-IsKnown key known)))
      | inr other ↦ rw (set, other) (unknown key set (is_in_networks-false key other))
    ]
  ]
    where
      default_of :
          {key : String}
          → network ≡ some key
          → IsSelected network none key
          → IsSelected network none (or_default network)
      default_of e h = let same = ap or_default e in rw same h
  select_network_lem (some s) = elim (Option-cases (truthy network)) [
    | inl unset ↦ elim (Option-cases (network_of_stack s)) [
      | inl e ↦ rw (unset, e) (unmatched s unset (network_of_stack-HasNoNetwork s e))
      | inr (found, e) ↦
          rw (unset, e) (of_stack s found unset (network_of_stack-IsNetworkOf s found e))
    ]
    | inr (key, set) ↦ elim (Bool-cases (is_in_networks key)) [
      | inr other ↦ rw (set, other) (unknown key set (is_in_networks-false key other))
      | inl known ↦ elim (Option-cases (network_of_stack s)) [
        | inl e ↦
            rw (set, known, e)
              (agreed s key set (is_in_networks-IsKnown key known)
                (inr (network_of_stack-HasNoNetwork s e)))
        | inr (found, e) ↦ elim (Bool-cases (key == found)) [
          | inl same ↦
              rw (set, known, e, same)
                (agreed s key set (is_in_networks-IsKnown key known) (
                  inl (
                    subst (IsNetworkOf s) (sym ((eq_iff key found).0 same))
                      (network_of_stack-IsNetworkOf s found e))))
          | inr differs ↦
              rw (set, known, e, differs)
                (conflict s key found set (network_of_stack-IsNetworkOf s found e)
                  (λ eq. let yes : (key == found) ≡ true = rw eq (eq_refl found) in cc))
        ]
      ]
    ]
  ]

-- A stack that is published at a known network's URL, and a fork that names none but has the id of
-- one with the suffix of a fork, both select that network when none is asked for.
pub select_network-fork :
    All
      (λ (entry : NetworkEntry).
        ((stack : Stack)
          → stack.url ≡ entry.stack_url
          → stack.descriptor.fork_of ≡ none
          → select_network none (some stack) ≡ ok entry.key)
        × ((stack : Stack)
            → find? (is_published_at stack) networks ≡ none
            → stack.descriptor.id ≡ String.◌++◌ entry.key fork_suffix
            → select_network none (some stack) ≡ ok entry.key))
      networks
unfolding select_network network_of_stack
select_network-fork = (
  (λ stack e f. rw e refl, λ stack e f. rw (e, f) refl),
  (
    (λ stack e f. rw (e, f) refl, λ stack e f. rw (e, f) refl),
    ((λ stack e f. rw (e, f) refl, λ stack e f. rw (e, f) refl), tt),
  ),
)
