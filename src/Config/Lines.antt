-- ===== src/Config/Lines.antt =====
-- A file that is written section by section reads back.
use l7_loadbalancer.Base.{
  ℕ, ◌≡◌, refl, sym, ap, ◌∙◌, ◌≢◌, inl, inr, true, false, ◌||◌, ◌&&◌, subst, List, [], ◌∷◌, ◌++◌,
  Option, none, some, arith, ◌==◌, if◌then◌else◌, All, Option-cases,
}
use l7_loadbalancer.Base.Assoc.{find, put, find-put}
use l7_loadbalancer.Text.{skip_space, is_space}
use l7_loadbalancer.Text.Strings.{
  text_beq, text_beq_iff, text_key, split, break_at, trim, trim_cons, trim_end,
}
use l7_loadbalancer.Servers.{RealServerConfig}
use l7_loadbalancer.Config.{
  Config, Reading, full_key, read_item, read_trimmed, read_line, read_lines, get,
  parse_real_servers, loaded, load,
}

abbrev pub Without : ℕ → List ℕ → Type 0
Without sep s = All (λ c. c ≢ sep) s

pub record IsTrimmed (s : List ℕ) : Type 0 where
  pub at_start : skip_space s ≡ s
  pub at_end : trim_end s ≡ s

pub split-line :
    (sep : ℕ) (l rest : List ℕ) → Without sep l → split sep (l ++ (sep ∷ rest)) ≡ l ∷ split sep rest
unfolding split
split-line sep [] rest w = let e : (sep == sep) ≡ true = ground arith in rw (e, split) refl
split-line sep (c ∷ l) rest w =
    let e : (c == sep) ≡ false = ground (arith, w.0) in
    rw (e, split, split-line sep l rest w.1) refl

pub break_at-append :
    (sep : ℕ) (a b : List ℕ) → Without sep a → break_at sep (a ++ (sep ∷ b)) ≡ some (a, b)
unfolding break_at
break_at-append sep [] b w = let e : (sep == sep) ≡ true = ground arith in rw (e, break_at) refl
break_at-append sep (c ∷ a) b w =
    let e : (c == sep) ≡ false = ground (arith, w.0) in
    rw (e, break_at, break_at-append sep a b w.1) refl

trim_cons-append :
    (x : ℕ) (a : List ℕ) (c : ℕ) (t : List ℕ) → trim_cons x (a ++ (c ∷ t)) ≡ x ∷ (a ++ (c ∷ t))
trim_cons-append x [] c t = refl
trim_cons-append x (y ∷ a) c t = refl

trim_cons-solid : (c : ℕ) (t : List ℕ) → is_space c ≡ false → trim_cons c t ≡ c ∷ t
trim_cons-solid c [] h = rw h refl
trim_cons-solid c (d ∷ t) h = refl

-- A character that is not white space stops the cut at the end of a line.
pub trim_end-solid :
    (a : List ℕ) (c : ℕ) (b : List ℕ)
    → is_space c ≡ false
    → trim_end (a ++ (c ∷ b)) ≡ a ++ (c ∷ trim_end b)
unfolding trim_end
trim_end-solid [] c b h = trim_cons-solid c (trim_end b) h
trim_end-solid (x ∷ a) c b h =
    ap (trim_cons x) (trim_end-solid a c b h) ∙ trim_cons-append x a c (trim_end b)

-- One setting of a file, and what makes it one that the format can express.
pub record Item : Type 0 where
  pub section : List ℕ
  pub first : ℕ
  pub more : List ℕ
  pub value : List ℕ

-- The key has a first character.
abbrev pub key : Item → List ℕ
key e = e.first ∷ e.more

pub record Fits (e : Item) : Type 0 where
  pub section_trimmed : IsTrimmed e.section
  pub section_line : Without 10 e.section
  pub section_plain : Without b']' e.section
  pub solid : is_space e.first ≡ false
  pub marks : ((e.first == b'#' || e.first == b';') ≡ false) × ((e.first == b'[') ≡ false)
  pub key_trimmed : IsTrimmed (key e)
  pub key_line : Without 10 (key e)
  pub key_plain : Without b'=' (key e)
  pub key_dotless : Without b'.' (key e)
  pub value_trimmed : IsTrimmed e.value
  pub value_line : Without 10 e.value

abbrev pub header_line : Item → List ℕ
header_line e = b'[' ∷ (e.section ++ (b']' ∷ []))

abbrev pub item_line : Item → List ℕ
item_line e = key e ++ (b'=' ∷ e.value)

-- `[section]` and `key=value`, each on its line.
unfoldable pub render : List Item → List ℕ
render [] = []
render (e ∷ es) = header_line e ++ (10 ∷ (item_line e ++ (10 ∷ render es)))

-- What reading the settings in their order leaves.
unfoldable pub after : Reading → List Item → Reading
after r [] = r
after r (e ∷ es) =
    after (record { section = e.section; items = put (full_key e.section (key e)) e.value r.items })
      es

read_header :
    (r : Reading) (e : Item)
    → Fits e
    → read_line r (header_line e) ≡ record r { section = e.section }
unfolding read_line read_trimmed read_item trim skip_space trim_end
read_header r e f =
    let whole : trim_end (header_line e) ≡ header_line e =
      trim_end-solid (b'[' ∷ e.section) b']' [] refl in
    let found = break_at-append b']' e.section [] f.section_plain in
    let same : trim_end (skip_space e.section) ≡ e.section =
      ap trim_end f.section_trimmed.at_start ∙ f.section_trimmed.at_end in
    rw (whole, found, same) refl

skip_solid : (c : ℕ) (s : List ℕ) → is_space c ≡ false → skip_space (c ∷ s) ≡ c ∷ s
unfolding skip_space
skip_solid c s h = rw h refl

pub trim-trimmed : (s : List ℕ) → IsTrimmed s → trim s ≡ s
unfolding trim
trim-trimmed s t = ap trim_end t.at_start ∙ t.at_end

trim_item : (e : Item) → Fits e → trim (item_line e) ≡ item_line e
unfolding trim
trim_item e f =
    ap trim_end (skip_solid e.first (e.more ++ (b'=' ∷ e.value)) f.solid)
    ∙ trim_end-solid (key e) b'=' e.value refl
    ∙ ap (λ v. key e ++ (b'=' ∷ v)) f.value_trimmed.at_end

read_setting :
    (r : Reading) (e : Item)
    → Fits e
    → read_line r (item_line e)
      ≡ record r { items = put (full_key r.section (key e)) e.value r.items }
unfolding read_line read_trimmed read_item
read_setting r e f =
    ap (read_trimmed r) (trim_item e f)
    ∙ rw
        (
          f.marks.0,
          f.marks.1,
          break_at-append b'=' (key e) e.value f.key_plain,
          trim-trimmed (key e) f.key_trimmed,
          trim-trimmed e.value f.value_trimmed,
        )
        refl

Without-append : (sep : ℕ) (a b : List ℕ) → Without sep a → Without sep b → Without sep (a ++ b)
Without-append sep [] b ha hb = hb
Without-append sep (c ∷ a) b ha hb = (ha.0, Without-append sep a b ha.1 hb)

-- Reading a rendered file does, setting by setting, what `after` says.
pub read_lines-render :
    (r : Reading) (es : List Item) → All Fits es → read_lines r (split 10 (render es)) ≡ after r es
unfolding read_lines render after split
read_lines-render r [] fits = refl
read_lines-render r (e ∷ es) fits =
    let f = fits.0 in
    let one = split-line 10 (header_line e) (item_line e ++ (10 ∷ render es)) (
      (λ q. omega arith),
      Without-append 10 e.section (b']' ∷ []) f.section_line ((λ q. omega arith), tt),
    ) in
    let two =
      split-line 10 (item_line e) (render es) (
        Without-append 10 (key e) (b'=' ∷ e.value) f.key_line ((λ q. omega arith), f.value_line)) in
    let r1 = record r { section = e.section } in
    let r2 = record r1 { items = put (full_key e.section (key e)) e.value r.items } in
    rw (render, one, two)
      (ap (λ x. read_lines (read_line x (item_line e)) (split 10 (render es))) (read_header r e f)
        ∙ ap (λ x. read_lines x (split 10 (render es))) (read_setting r1 e f)
        ∙ read_lines-render r2 es fits.1)

-- The value that `get` finds: the last one set under the same full key, or else what was there.
unfoldable pub last_value : List Item → List ℕ → List ℕ → List ℕ
last_value [] k unset = unset
last_value (e ∷ es) k unset =
    last_value es k (if text_beq (full_key e.section (key e)) k then e.value else unset)

abbrev value_or : Option (List ℕ) → List ℕ → List ℕ
value_or none d = d
value_or (some v) d = v

after-last_value :
    (r : Reading) (es : List Item) (k d : List ℕ)
    → value_or (find k (after r es).items) d ≡ last_value es k (value_or (find k r.items) d)
unfolding after last_value
after-last_value r [] k d = refl
after-last_value r (e ∷ es) k d =
    let r2 : Reading = record {
      section = e.section;
      items = put (full_key e.section (key e)) e.value r.items;
    } in
    after-last_value r2 es k d
    ∙ ap (last_value es k) (ground (arith, find-put (full_key e.section (key e)) k e.value r.items))

config_map-parse :
    (blank : RealServerConfig) (c c' : Config)
    → parse_real_servers blank c ≡ some c'
    → c'.config_map ≡ c.config_map
unfolding parse_real_servers
config_map-parse blank c c' e = ground arith

loaded_inj : {c c' : Config} → loaded c ≡ loaded c' → c ≡ c'
loaded_inj e = cc

config_map-load :
    (blank : RealServerConfig) (c c' : Config) (file : List ℕ)
    → load blank c (some file) ≡ loaded c'
    → c'.config_map
      ≡ (read_lines (record { section = []; items = c.config_map }) (split 10 file)).items
unfolding load
config_map-load blank c c' file e =
    let r = read_lines (record { section = []; items = c.config_map }) (split 10 file) in
    let c1 = record c { config_map = r.items } in
    elim (Option-cases (parse_real_servers blank c1)) [
      | inl gone ↦ let e1 = rw (load, gone) at e in absurd (ground arith)
      | inr (c2, found) ↦
          let e1 = rw (load, found) at e in
          ap (λ x. x.config_map) (sym (loaded_inj e1)) ∙ config_map-parse blank c1 c2 found
    ]

get-find :
    (c : Config) (section k d : List ℕ)
    → get c section k d ≡ value_or (find (section ++ (b'.' ∷ k)) c.config_map) d
unfolding get
get-find c section k d = ground arith

-- The same by full key.
get-load_full :
    (blank : RealServerConfig) (c c' : Config) (es : List Item) (a : ℕ) (section k d : List ℕ)
    → All Fits es
    → load blank c (some (render es)) ≡ loaded c'
    → get c' (a ∷ section) k d ≡ last_value es (full_key (a ∷ section) k) (get c (a ∷ section) k d)
unfolding full_key
get-load_full blank c c' es a section k d fits e =
    let r : Reading = record { section = []; items = c.config_map } in
    let q = (a ∷ section) ++ (b'.' ∷ k) in
    let m = config_map-load blank c c' (render es) e in
    let whole = read_lines-render r es fits in
    get-find c' (a ∷ section) k d
    ∙ ap (λ items. value_or (find q items) d) (m ∙ ap (λ x. x.items) whole)
    ∙ after-last_value r es q d
    ∙ ap (last_value es q) (sym (get-find c (a ∷ section) k d))

dot_inside : (xs ys : List ℕ) → Without b'.' (xs ++ (b'.' ∷ ys)) → ⊥
dot_inside [] ys h = h.0 refl
dot_inside (x ∷ xs) ys h = dot_inside xs ys h.1

-- The last dot divides a full key.
last_dot :
    (x y k j : List ℕ)
    → Without b'.' k
    → Without b'.' j
    → x ++ (b'.' ∷ k) ≡ y ++ (b'.' ∷ j)
    → (x ≡ y) × (k ≡ j)
last_dot [] [] k j hk hj e = (refl, cc)
last_dot [] (b ∷ y) k j hk hj e =
    let q : k ≡ y ++ (b'.' ∷ j) = cc in absurd (dot_inside y j (subst (Without b'.') q hk))
last_dot (a ∷ x) [] k j hk hj e =
    let q : j ≡ x ++ (b'.' ∷ k) = cc in absurd (dot_inside x k (subst (Without b'.') q hj))
last_dot (a ∷ x) (b ∷ y) k j hk hj e =
    let first : a ≡ b = cc in let (q, r) = last_dot x y k j hk hj cc in ((λ i. first i ∷ q i), r)

-- A full key is that of one section and key only.
full_key_inj :
    (s k : List ℕ) (a : ℕ) (section j : List ℕ)
    → Without b'.' k
    → Without b'.' j
    → full_key s k ≡ full_key (a ∷ section) j
    → (s ≡ a ∷ section) × (k ≡ j)
unfolding full_key
full_key_inj [] k a section j hk hj e =
    absurd (dot_inside (a ∷ section) j (subst (Without b'.') e hk))
full_key_inj (c ∷ s) k a section j hk hj e = last_dot (c ∷ s) (a ∷ section) k j hk hj e

same_key :
    (s k : List ℕ) (a : ℕ) (section j : List ℕ)
    → Without b'.' k
    → Without b'.' j
    → text_beq (full_key s k) (full_key (a ∷ section) j)
      ≡ (text_beq s (a ∷ section) && text_beq k j)
same_key s k a section j hk hj = grind (
  arith,
  text_beq_iff (full_key s k) (full_key (a ∷ section) j),
  text_beq_iff s (a ∷ section),
  text_beq_iff k j,
  full_key_inj s k a section j hk hj,
  there,
)
  where
    there : s ≡ a ∷ section → k ≡ j → full_key s k ≡ full_key (a ∷ section) j
    there e f = λ i. full_key (e i) (f i)

-- The value last set under a section and a key, or else what was there.
unfoldable pub last_set : List Item → List ℕ → List ℕ → List ℕ → List ℕ
last_set [] section k unset = unset
last_set (e ∷ es) section k unset =
    last_set es section k
      (if text_beq e.section section && text_beq (key e) k then e.value else unset)

last_value-last_set :
    (es : List Item) (a : ℕ) (section k unset : List ℕ)
    → All Fits es
    → Without b'.' k
    → last_value es (full_key (a ∷ section) k) unset ≡ last_set es (a ∷ section) k unset
unfolding last_value last_set
last_value-last_set [] a section k unset fits h = refl
last_value-last_set (e ∷ es) a section k unset fits h =
    ap (λ c. last_value es (full_key (a ∷ section) k) (if c then e.value else unset))
      (same_key e.section (key e) a section k fits.0.key_dotless h)
    ∙ last_value-last_set es a section k _ fits.1 h

-- Take a file that is written setting by setting, each with its section, where sections, keys and
-- values have no line break and no white space around them, no section has a `]`, and a key has no
-- `=` and no dot, is not empty and does not start with `#`, `;` or `[`. After it is loaded, `get` gives
-- for a key without a dot, of a named section, the value last set in the file under the same section
-- and key, or else what it gave before.
pub get-load :
    (blank : RealServerConfig) (c c' : Config) (es : List Item) (a : ℕ) (section k d : List ℕ)
    → All Fits es
    → Without b'.' k
    → load blank c (some (render es)) ≡ loaded c'
    → get c' (a ∷ section) k d ≡ last_set es (a ∷ section) k (get c (a ∷ section) k d)
get-load blank c c' es a section k d fits h e =
    get-load_full blank c c' es a section k d fits e
    ∙ last_value-last_set es a section k (get c (a ∷ section) k d) fits h
