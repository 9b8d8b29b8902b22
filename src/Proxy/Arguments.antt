-- ===== src/Proxy/Arguments.antt =====
-- How `main` of src/main.cpp reads its command line. Its own options are blanked out, and the arguments
-- that are left are for F-Stack.
use mathlib.Core.List.{append-nil, append_assoc}
use l7_loadbalancer.Base.{
  ℕ, ◌≡◌, refl, sym, ap, ◌∙◌, ◌≢◌, List, [], ◌∷◌, ◌++◌, Option, none, some, arith, if◌then◌else◌,
  ◌>>=◌, All,
}
use l7_loadbalancer.Text.Strings.{codes, text_beq, text_beq_iff}

-- What an argument is compared with.
pub data Word : Type 0 where
  lb_config log help_lb other : Word

unfoldable pub word_of : List ℕ → Word
word_of a =
    if text_beq a (codes "--lb-config")
    then lb_config
    else if text_beq a (codes "--log")
    then log
    else if text_beq a (codes "--help-lb")
    then help_lb
    else other

-- The variables of the loop, with the part of `argv` that it has passed.
pub record Options : Type 0 where
  pub config_file : List ℕ
  pub log_level : List ℕ
  pub argv : List (List ℕ)

unfoldable pub keep : Options → List ℕ → Options
keep o a = record o { argv = o.argv ++ a ∷ [] }

-- An option and its value are left empty in `argv`.
unfoldable pub blank_two : Options → Options
blank_two o = record o { argv = o.argv ++ [] ∷ [] ∷ [] }

-- The loop over the arguments; `none` is `--help-lb`, where `main` returns 0.
unfoldable pub scan : Options → List (List ℕ) → Option Options
scan o [] = some o
scan o (a ∷ []) = elim (word_of a) [
  | lb_config ↦ some (keep o a)
  | log ↦ some (keep o a)
  | help_lb ↦ none
  | other ↦ some (keep o a)
]
scan o (a ∷ v ∷ rest) = elim (word_of a) [
  | lb_config ↦ scan (record (blank_two o) { config_file = v }) rest
  | log ↦ scan (record (blank_two o) { log_level = v }) rest
  | help_lb ↦ none
  | other ↦ scan (keep o a) (v ∷ rest)
]

-- The loop that makes `new_argv`.
unfoldable pub rebuild : List (List ℕ) → List (List ℕ)
rebuild [] = []
rebuild ([] ∷ rest) = rebuild rest
rebuild ((c ∷ a) ∷ rest) = (c ∷ a) ∷ rebuild rest

abbrev finish : Options → Options
finish o = record o { argv = rebuild o.argv }

unfoldable pub parse_args : List (List ℕ) → Option Options
parse_args [] =
    some (record { config_file = codes "config/lb.conf"; log_level = codes "info"; argv = [] })
parse_args (name ∷ args) = do
  o ←
      scan
        (record {
          config_file = codes "config/lb.conf";
          log_level = codes "info";
          argv = name ∷ [];
        })
        args
  some (finish o)

-- A command line part by part: an argument for F-Stack, or an option with its value.
pub data Part : Type 0 where
  plain set_config set_log : List ℕ → Part

abbrev pub written : List Part → List (List ℕ)
written [] = []
written (plain a ∷ ps) = a ∷ written ps
written (set_config v ∷ ps) = codes "--lb-config" ∷ v ∷ written ps
written (set_log v ∷ ps) = codes "--log" ∷ v ∷ written ps

-- It is none of the three options.
abbrev pub IsPlain : Part → Type 0
IsPlain (plain a) = (a ≢ codes "--lb-config") × (a ≢ codes "--log") × (a ≢ codes "--help-lb")
IsPlain _ = Unit

-- The value last set, or else the default.
abbrev pub config_in : List ℕ → List Part → List ℕ
config_in d [] = d
config_in d (set_config v ∷ ps) = config_in v ps
config_in d (_ ∷ ps) = config_in d ps

abbrev pub log_in : List ℕ → List Part → List ℕ
log_in d [] = d
log_in d (set_log v ∷ ps) = log_in v ps
log_in d (_ ∷ ps) = log_in d ps

-- The arguments for F-Stack, without empty ones.
abbrev pub plains : List Part → List (List ℕ)
plains [] = []
plains (plain [] ∷ ps) = plains ps
plains (plain (c ∷ a) ∷ ps) = (c ∷ a) ∷ plains ps
plains (_ ∷ ps) = plains ps

-- `argv` after the loop.
abbrev blanked : List Part → List (List ℕ)
blanked [] = []
blanked (plain a ∷ ps) = a ∷ blanked ps
blanked (_ ∷ ps) = [] ∷ [] ∷ blanked ps

rebuild-blanked : (ps : List Part) → rebuild (blanked ps) ≡ plains ps
unfolding rebuild
rebuild-blanked [] = refl
rebuild-blanked (plain [] ∷ ps) = rebuild-blanked ps
rebuild-blanked (plain (c ∷ a) ∷ ps) = ap (◌∷◌ (c ∷ a)) (rebuild-blanked ps)
rebuild-blanked (set_config v ∷ ps) = rebuild-blanked ps
rebuild-blanked (set_log v ∷ ps) = rebuild-blanked ps

word_of-plain :
    (a : List ℕ)
    → a ≢ codes "--lb-config"
    → a ≢ codes "--log"
    → a ≢ codes "--help-lb"
    → word_of a ≡ other
unfolding word_of
word_of-plain a p q r = ground (
  arith,
  text_beq_iff a (codes "--lb-config"),
  text_beq_iff a (codes "--log"),
  text_beq_iff a (codes "--help-lb"),
)

scan-plain :
    (o : Options) (a : List ℕ) (rest : List (List ℕ))
    → word_of a ≡ other
    → scan o (a ∷ rest) ≡ scan (keep o a) rest
unfolding scan
scan-plain o a [] e = rw (e, scan) refl
scan-plain o a (v ∷ rest) e = rw (e, scan) refl

scan-written :
    (o : Options) (ps : List Part)
    → All IsPlain ps
    → scan o (written ps)
      ≡ some (record {
        config_file = config_in o.config_file ps;
        log_level = log_in o.log_level ps;
        argv = o.argv ++ blanked ps;
      })
unfolding scan keep blank_two word_of text_beq
scan-written o [] h = ap (λ v. some (record o { argv = v })) (sym (append-nil o.argv))
scan-written o (plain a ∷ ps) ((p, q, r), h) =
    scan-plain o a (written ps) (word_of-plain a p q r) ∙ scan-written (keep o a) ps h ∙ (λ i.
      some (record {
        config_file = config_in o.config_file ps;
        log_level = log_in o.log_level ps;
        argv = append_assoc o.argv (a ∷ []) (blanked ps) i;
      }))
scan-written o (set_config v ∷ ps) (_, h) =
    scan-written (record (blank_two o) { config_file = v }) ps h ∙ (λ i. some (record {
      config_file = config_in v ps;
      log_level = log_in o.log_level ps;
      argv = append_assoc o.argv ([] ∷ [] ∷ []) (blanked ps) i;
    }))
scan-written o (set_log v ∷ ps) (_, h) =
    scan-written (record (blank_two o) { log_level = v }) ps h ∙ (λ i. some (record {
      config_file = config_in o.config_file ps;
      log_level = log_in v ps;
      argv = append_assoc o.argv ([] ∷ [] ∷ []) (blanked ps) i;
    }))

-- The options of the balancer are taken out of the command line wherever they stand, with their values;
-- of each the last one counts; and F-Stack gets the program's name and the other arguments in their order,
-- less the empty ones. The condition is that the name is not empty and that the others are not spelt like
-- an option.
pub parse_args-written :
    (c : ℕ) (name : List ℕ) (ps : List Part)
    → All IsPlain ps
    → parse_args ((c ∷ name) ∷ written ps)
      ≡ some (record {
        config_file = config_in (codes "config/lb.conf") ps;
        log_level = log_in (codes "info") ps;
        argv = (c ∷ name) ∷ plains ps;
      })
unfolding parse_args rebuild
parse_args-written c name ps h =
    ap (λ (r : Option Options). r >>= λ o. some (finish o)) (scan-written _ ps h) ∙ (λ i.
      some (record {
        config_file = config_in (codes "config/lb.conf") ps;
        log_level = log_in (codes "info") ps;
        argv = (c ∷ name) ∷ rebuild-blanked ps i;
      }))
