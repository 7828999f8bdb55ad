-- ===== src/ReleaseGate/Form.antt =====
-- environments/gate-form.mjs: the issue form and the dispatch form, read into a target overlay.
-- `JSON.parse` is a parameter.
use polkadot_pop_e2e.Common.{
  String, Bool, true, false, Option, none, some, List, [], ◌∷◌, map, keep, if◌then◌else◌, Result,
  ok, err, ◌>>=◌, Object, field, put, put_all, delete, trim, is_blank, first_line, cat, text_or,
}
use polkadot_pop_e2e.ReleaseGate.Sections.{fenced, section}

mutual
  -- A value of JSON; `plain` is a number or a Boolean.
  pub data Json : Type 0 where
    null : Json
    plain : Json
    text : (value : String) → Json
    array : (items : Fields) → Json
    object : (fields : Fields) → Json

  -- The own keys of an object, and the indices of an array.
  pub data Fields : Type 0 where
    nil : Fields
    entry : (key : String) (value : Json) (rest : Fields) → Fields

abbrev pub pairs : Fields → Object Json
pairs nil = []
pairs (entry key value rest) = (key, value) ∷ pairs rest

abbrev pub fields_of : Object Json → Fields
fields_of [] = nil
fields_of ((key, value) ∷ rest) = entry key value (fields_of rest)

pub record FormField : Type 0 where
  pub id : String
  pub label : String
  pub path : List String
  pub client : Bool

abbrev form_field : String → String → List String → Bool → FormField
form_field id label path client = record { id = id; label = label; path = path; client = client }

-- `FIELDS`; each has one path.
abbrev pub form_fields : List FormField
form_fields =
    form_field "binary_polkadot" "Node binary: polkadot" ("binaries" ∷ "polkadot" ∷ []) false
    ∷ form_field "binary_polkadot_omni_node" "Node binary: polkadot-omni-node"
        ("binaries" ∷ "polkadot-omni-node" ∷ []) false
    ∷ form_field "runtime_relay" "Runtime: relay" ("chains" ∷ "relay" ∷ "runtime" ∷ []) false
    ∷ form_field "runtime_asset_hub" "Runtime: asset-hub" ("chains" ∷ "asset-hub" ∷ "runtime" ∷ [])
        false
    ∷ form_field "runtime_people" "Runtime: people" ("chains" ∷ "people" ∷ "runtime" ∷ []) false
    ∷ form_field "runtime_bulletin" "Runtime: bulletin" ("chains" ∷ "bulletin" ∷ "runtime" ∷ [])
        false
    ∷ form_field "runtime_web3_storage" "Runtime: web3-storage"
        ("chains" ∷ "web3-storage" ∷ "runtime" ∷ []) false
    ∷ form_field "service_eth_rpc" "Service: eth-rpc" ("services" ∷ "eth-rpc" ∷ []) false
    ∷ form_field "service_identity_backend" "Service: identity-backend"
        ("services" ∷ "identity-backend" ∷ []) false
    ∷ form_field "product_sdk" "Client: product-sdk" ("product_sdk" ∷ []) true
    ∷ form_field "truapi" "Client: truapi" ("truapi" ∷ []) true
    ∷ []

abbrev pub advanced_label : String
advanced_label = "Advanced: raw target overlay (JSON)"

-- `node[key] ??= {}`: no path runs through a text.
abbrev pub node_at : Option Json → Object Json
node_at (some (object fields)) = pairs fields
node_at _ = []

abbrev pub set_path : List String → String → Object Json → Object Json
set_path [] value node = node
set_path (key ∷ []) value node = put node key (text value)
set_path (key ∷ next ∷ path) value node =
    put node key (object (fields_of (set_path (next ∷ path) value (node_at (field node key)))))

abbrev pub value_of : Object String → String → String
value_of values id = trim (first_line (text_or "" (field values id)))

abbrev pub assemble_from : Object String → Object Json → List FormField → Object Json
assemble_from values target [] = target
assemble_from values target (f ∷ fields) =
    let value = value_of values f.id in
    assemble_from values (if is_blank value then target else set_path f.path value target) fields

unfoldable pub assemble : Object String → List FormField → Option (Object Json)
assemble values fields = elim (assemble_from values [] fields) [
  | [] ↦ none
  | key ∷ more ↦ some (key ∷ more)
]

pub data FormError : Type 0 where
  no_network : FormError
  invalid_json : (body : String) → FormError
  not_a_string : (key : String) → FormError

-- What `{ ...value }` takes over; the indices of a text are left out.
abbrev pub spread : Json → Object Json
spread (object fields) = pairs fields
spread (array items) = pairs items
spread _ = []

pub record Form : Type 0 where
  pub network : String
  pub target : Json

-- `none` where `JSON.parse` throws.
module _ (parse_json : String → Option Json) where
  abbrev pub parse_advanced : String → Result FormError Json
  parse_advanced raw =
      let body = text_or raw (fenced raw) in
      elim (parse_json body) [ none ↦ err (invalid_json body) | some value ↦ ok value ]

  abbrev pub or_null : Option (Object Json) → Json
  or_null none = null
  or_null (some fields) = object (fields_of fields)

  abbrev pub lay_clients : Option (Object Json) → Json → Json
  lay_clients none advanced = advanced
  lay_clients (some clients) advanced = object (fields_of (put_all (spread advanced) clients))

  unfoldable pub overlay : Object String → String → Result FormError Json
  overlay values raw =
      if is_blank raw
      then ok (or_null (assemble values form_fields))
      else parse_advanced raw >>= λ advanced.
          ok (lay_clients (assemble values (keep (λ f. f.client) form_fields)) advanced)

  unfoldable pub parse_issue_form : String → Result FormError Form
  unfolding section
  parse_issue_form body =
      let network = trim (first_line (section body "Network")) in
      if is_blank network
      then err no_network
      else overlay (map (λ f. (f.id, section body f.label)) form_fields)
          (section body advanced_label)
        >>= λ target. ok (record { network = network; target = target })

  -- `GATE_<ID>`, with the upper case of an id as a parameter.
  unfoldable pub parse_dispatch_inputs :
      (to_upper : String → String) → Object String → Result FormError Json
  parse_dispatch_inputs to_upper env =
      overlay
        (map (λ f. (f.id, text_or "" (field env (cat ("GATE_" ∷ to_upper f.id ∷ []))))) form_fields)
        (trim (text_or "" (field env "GATE_ADVANCED")))

pub record RunOptions : Type 0 where
  pub ppn_ref : String
  pub product_sdk : String
  pub truapi : String
  pub target : Json

-- A key that is taken out: its value, and the keys that are left.
abbrev pub take_option : String → Object Json → Result FormError (String × Object Json)
take_option key rest = elim (field rest key) [
  | none ↦ ok ("", rest)
  | some (text value) ↦ ok (value, delete rest key)
  | some null ↦ ok ("", delete rest key)
  | some _ ↦ err (not_a_string key)
]

abbrev pub split_options : Object Json → Result FormError RunOptions
split_options keys = do
  ppn ← take_option "ppn_ref" keys
  sdk ← take_option "product_sdk" ppn.1
  truapi ← take_option "truapi" sdk.1
  ok (record {
    ppn_ref = ppn.0;
    product_sdk = sdk.0;
    truapi = truapi.0;
    target = elim truapi.1 [ [] ↦ null | key ∷ more ↦ object (fields_of (key ∷ more)) ];
  })

unfoldable pub split_run_options : Json → Result FormError RunOptions
split_run_options (object fields) = split_options (pairs fields)
split_run_options (array items) = split_options (pairs items)
split_run_options target =
    ok (record { ppn_ref = ""; product_sdk = ""; truapi = ""; target = target })
