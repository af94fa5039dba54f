-- ===== src/Cli/Reference.antt =====
-- What the options of `audioctl list` mean (src/main.c): each argument stands for some flags, and the
-- options are the flags of all arguments.
use audioctl.Base.{
  ℕ, ◌≡◌, refl, ◌∙◌, sym, Bool, true, false, not, ◌&&◌, ◌||◌, Option, none, some, List, [], ◌∷◌,
  ◌++◌, ◌==◌, if◌then◌else◌, Bool-cases, inl, inr, arith,
}
use mathlib.Core.Path.{subst}
use audioctl.Base.Bytes.{Bytes, codes}
use audioctl.Cli.{same_string}
use audioctl.Cli.Options.{
  ProgramOptions, Flag, active, input, output, raise_flag, command_options, parse_short_option,
  parse_long_option, parse_short_options, handle_argument, handle_arguments, no_options,
  validate_option_combination, parse_options,
}

abbrev pub letter_flag : ℕ → Option Flag
letter_flag c =
    if c == 97
    then some active
    else if c == 105
    then some input
    else if c == 111
    then some output
    else none

abbrev pub word_flag : Bytes → Option Flag
word_flag w =
    if same_string w (codes "active")
    then some active
    else if same_string w (codes "input")
    then some input
    else if same_string w (codes "output")
    then some output
    else none

abbrev pub and_then : Option Flag → Option (List Flag) → Option (List Flag)
and_then none rest = none
and_then (some f) none = none
and_then (some f) (some fs) = some (f ∷ fs)

abbrev pub both : Option (List Flag) → Option (List Flag) → Option (List Flag)
both none gs = none
both (some fs) none = none
both (some fs) (some gs) = some (fs ++ gs)

pub letters_flags : Bytes → Option (List Flag)
letters_flags [] = some []
letters_flags (c ∷ cs) = and_then (letter_flag c) (letters_flags cs)

-- "-" and letters, or "--" and a word; neither alone.
pub argument_flags : Bytes → Option (List Flag)
argument_flags [] = none
argument_flags (a ∷ []) = none
argument_flags (a ∷ b ∷ []) = if a == 45 && not (b == 45) then letters_flags (b ∷ []) else none
argument_flags (a ∷ b ∷ c ∷ cs) =
    if not (a == 45)
    then none
    else if b == 45
    then and_then (word_flag (c ∷ cs)) (some [])
    else letters_flags (b ∷ c ∷ cs)

pub arguments_flags : List Bytes → Option (List Flag)
arguments_flags [] = some []
arguments_flags (arg ∷ args) = both (argument_flags arg) (arguments_flags args)

abbrev pub same_flag : Flag → Flag → Bool
same_flag active active = true
same_flag input input = true
same_flag output output = true
same_flag _ _ = false

unfoldable pub has_flag : Flag → List Flag → Bool
has_flag f [] = false
has_flag f (g ∷ gs) = same_flag f g || has_flag f gs

unfoldable pub raise_all : List Flag → ProgramOptions → ProgramOptions
raise_all [] opts = opts
raise_all (f ∷ fs) opts = raise_all fs (raise_flag f opts)

-- The options that flags stand for.
abbrev pub options_of : List Flag → ProgramOptions
options_of fs = record {
  show_only_active = has_flag active fs;
  show_only_input = has_flag input fs;
  show_only_output = has_flag output fs;
  set_input_volume = false;
  set_output_volume = false;
}

-- What a parser owes to the flags that its text stands for.
abbrev pub Agrees : Option (List Flag) → Bool × ProgramOptions → ProgramOptions → Type 0
Agrees none out opts = out.0 ≡ false
Agrees (some fs) out opts = out ≡ (true, raise_all fs opts)

parse_short_option-Agrees :
    (c : ℕ) (opts : ProgramOptions)
    → Agrees (and_then (letter_flag c) (some [])) (parse_short_option c command_options opts) opts
unfolding parse_short_option raise_all
parse_short_option-Agrees c opts = elim (Bool-cases (c == 97)) [
  | inl a ↦ rw a refl
  | inr not_a ↦ elim (Bool-cases (c == 105)) [
    | inl i ↦ rw (not_a, i) refl
    | inr not_i ↦ elim (Bool-cases (c == 111)) [
      | inl o ↦ rw (not_a, not_i, o) refl
      | inr not_o ↦ rw (not_a, not_i, not_o) refl
    ]
  ]
]

parse_long_option-Agrees :
    (w : Bytes) (opts : ProgramOptions)
    → Agrees (and_then (word_flag w) (some [])) (parse_long_option w command_options opts) opts
unfolding parse_long_option raise_all
parse_long_option-Agrees w opts = elim (Bool-cases (same_string w (codes "active"))) [
  | inl a ↦ rw a refl
  | inr not_a ↦ elim (Bool-cases (same_string w (codes "input"))) [
    | inl i ↦ rw (not_a, i) refl
    | inr not_i ↦ elim (Bool-cases (same_string w (codes "output"))) [
      | inl o ↦ rw (not_a, not_i, o) refl
      | inr not_o ↦ rw (not_a, not_i, not_o) refl
    ]
  ]
]

raise_all-append :
    (fs gs : List Flag) (opts : ProgramOptions)
    → raise_all (fs ++ gs) opts ≡ raise_all gs (raise_all fs opts)
unfolding raise_all
raise_all-append [] gs opts = refl
raise_all-append (f ∷ fs) gs opts = raise_all-append fs gs (raise_flag f opts)

-- One parser after the other.
both-Agrees :
    (x y : Option (List Flag)) (out : Bool × ProgramOptions)
    (next : ProgramOptions → Bool × ProgramOptions) (opts : ProgramOptions)
    → Agrees x out opts
    → ((opts' : ProgramOptions) → Agrees y (next opts') opts')
    → Agrees (both x y) (if out.0 then next out.1 else (false, out.1)) opts
both-Agrees none y out next opts first second = rw first refl
both-Agrees (some fs) none out next opts first second = rw first (second (raise_all fs opts))
both-Agrees (some fs) (some gs) out next opts first second =
    rw (first, raise_all-append fs gs opts) (second (raise_all fs opts))

both-and_then :
    (o : Option Flag) (y : Option (List Flag)) → and_then o y ≡ both (and_then o (some [])) y
both-and_then none y = refl
both-and_then (some f) none = refl
both-and_then (some f) (some gs) = refl

parse_short_options-Agrees :
    (cs : Bytes) (opts : ProgramOptions)
    → Agrees (letters_flags cs) (parse_short_options cs command_options opts) opts
unfolding letters_flags parse_short_options raise_all
parse_short_options-Agrees [] opts = refl
parse_short_options-Agrees (c ∷ cs) opts =
    subst (λ x. Agrees x (parse_short_options (c ∷ cs) command_options opts) opts)
      (sym (both-and_then (letter_flag c) (letters_flags cs)))
      (both-Agrees (and_then (letter_flag c) (some [])) (letters_flags cs)
        (parse_short_option c command_options opts)
        (λ opts'. parse_short_options cs command_options opts') opts
        (parse_short_option-Agrees c opts) (λ opts'. parse_short_options-Agrees cs opts'))

handle_argument-Agrees :
    (arg : Bytes) (opts : ProgramOptions)
    → Agrees (argument_flags arg) (handle_argument arg command_options opts) opts
unfolding argument_flags handle_argument
handle_argument-Agrees [] opts = refl
handle_argument-Agrees (a ∷ []) opts = refl
handle_argument-Agrees (a ∷ b ∷ []) opts = elim (Bool-cases (a == 45)) [
  | inl dash ↦ elim (Bool-cases (b == 45)) [
    | inl dashes ↦ rw (dash, dashes) refl
    | inr letter ↦ rw (dash, letter) (parse_short_options-Agrees (b ∷ []) opts)
  ]
  | inr plain ↦ rw plain refl
]
handle_argument-Agrees (a ∷ b ∷ c ∷ cs) opts = elim (Bool-cases (a == 45)) [
  | inl dash ↦ elim (Bool-cases (b == 45)) [
    | inl dashes ↦ rw (dash, dashes) (parse_long_option-Agrees (c ∷ cs) opts)
    | inr letter ↦ rw (dash, letter) (parse_short_options-Agrees (b ∷ c ∷ cs) opts)
  ]
  | inr plain ↦ rw plain refl
]

handle_arguments-Agrees :
    (args : List Bytes) (opts : ProgramOptions)
    → Agrees (arguments_flags args) (handle_arguments args command_options opts) opts
unfolding arguments_flags handle_arguments raise_all
handle_arguments-Agrees [] opts = refl
handle_arguments-Agrees (arg ∷ args) opts =
    both-Agrees (argument_flags arg) (arguments_flags args)
      (handle_argument arg command_options opts)
      (λ opts'. handle_arguments args command_options opts') opts (handle_argument-Agrees arg opts)
      (λ opts'. handle_arguments-Agrees args opts')

-- The flags raised are those in the list, on top of those that were there.
raised :
    (fs : List Flag) (opts : ProgramOptions)
    → raise_all fs opts ≡ record {
      show_only_active = opts.show_only_active || has_flag active fs;
      show_only_input = opts.show_only_input || has_flag input fs;
      show_only_output = opts.show_only_output || has_flag output fs;
      set_input_volume = opts.set_input_volume;
      set_output_volume = opts.set_output_volume;
    }
unfolding raise_all has_flag
raised [] opts = ground arith
raised (active ∷ fs) opts = raised fs (raise_flag active opts) ∙ ground arith
raised (input ∷ fs) opts = raised fs (raise_flag input opts) ∙ ground arith
raised (output ∷ fs) opts = raised fs (raise_flag output opts) ∙ ground arith

-- The result for the flags that the arguments stand for: `none` if an argument has no meaning.
abbrev pub meaning : Option (List Flag) → Option ProgramOptions
meaning none = none
meaning (some fs) = if has_flag input fs && has_flag output fs then none else some (options_of fs)

-- What the caller sees: the options only with the result true.
abbrev pub accepted : Bool × ProgramOptions → Option ProgramOptions
accepted (fine, opts) = if fine then some opts else none

from_none : (fs : List Flag) → raise_all fs no_options ≡ options_of fs
from_none fs = raised fs no_options

chosen :
    (both_given : Bool) (opts : ProgramOptions)
    → accepted (not both_given, opts) ≡ (if both_given then none else some opts)
chosen true opts = refl
chosen false opts = refl

validated :
    (x : Option (List Flag)) (out : Bool × ProgramOptions)
    → Agrees x out no_options
    → accepted (if out.0 then (validate_option_combination out.1, out.1) else (false, out.1))
      ≡ meaning x
unfolding validate_option_combination
validated none out first = rw first refl
validated (some fs) out first =
    rw (first, from_none fs) (chosen (has_flag input fs && has_flag output fs) (options_of fs))

-- `parseOptions` accepts exactly the arguments that all have a meaning and do not ask for input and
-- output devices at once, and then its options are the flags that occur anywhere in them, whatever
-- their order, their number and their spelling.
pub parse_options_lem :
    (args : List Bytes) → accepted (parse_options args) ≡ meaning (arguments_flags args)
unfolding parse_options
parse_options_lem args =
    validated (arguments_flags args) (handle_arguments args command_options no_options)
      (handle_arguments-Agrees args no_options)
