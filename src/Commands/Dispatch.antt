-- ===== src/Commands/Dispatch.antt =====
-- handleLine, answerPendingConfirmation and answerPendingOffer of internal/terminal/commands.go: what
-- one typed line makes the program do. A build without fault injection has no advance-time command.
use transferly.Prelude.{
  subst, ℕ, ◌≡◌, ◌≢◌, ◌↔◌, ◌⊎◌, inl, inr, refl, Bool, true, false, ◌||◌, List, [], ◌∷◌, Option,
  none, some, Bytes, codes, same, same_iff, arith, ◌==◌, if◌then◌else◌, any,
}
use transferly.Text.Space.{trim_space, to_lower}
use transferly.Text.Utf8.{runes}
use transferly.Commands.{split_command, parse_path_arguments, one_path_argument}

pub data OfferAction : Type 0 where
  accept reject details cleanup_staging : OfferAction
  destination : Bytes → OfferAction

-- The calls that handleLine makes; `usage` is the printed usage of a command, and `retype` the
-- request to answer yes or no.
pub data Action : Type 0 where
  ignore retype choose usage no_offer unknown : Action
  cancel disconnect keep_alive quit help : Action
  answer : Bool → Action
  offer : OfferAction → Action
  connect : Bytes → Action
  send : List Bytes → Action

abbrev is_word : List ℕ → Bytes → Bool
is_word command word = same command word

-- A command that takes no argument.
abbrev alone : Bytes → Action → Action
alone argument action = if same argument [] then action else usage

or_usage : {A : Type 0} → (A → Action) → Option A → Action
or_usage f none = usage
or_usage f (some a) = f a

answer_confirmation : List ℕ → Action
answer_confirmation line =
    if same line (codes "yes") || same line (codes "y")
    then answer true
    else if same line (codes "no") || same line (codes "n")
    then answer false
    else retype

abbrev allowed_words : List Bytes
allowed_words =
    codes "send"
    ∷ codes "help"
    ∷ codes "keep-alive"
    ∷ codes "disconnect"
    ∷ codes "quit"
    ∷ codes "exit"
    ∷ []

-- `none` lets the line through to the commands.
answer_offer : List ℕ → Bytes → Option Action
unfolding or_usage
answer_offer command argument =
    if same command (codes "accept")
    then some (alone argument (offer accept))
    else if same command (codes "reject")
    then some (alone argument (offer reject))
    else if same command (codes "details")
    then some (alone argument (offer details))
    else if same command (codes "cleanup-staging")
    then some (alone argument (offer cleanup_staging))
    else if same command (codes "destination")
    then some (or_usage (λ path. offer (destination path)) (one_path_argument argument))
    else if any (same command) allowed_words
    then none
    else some choose

run_command : List ℕ → Bytes → Action
unfolding or_usage
run_command command argument =
    if same command (codes "connect")
    then (if same argument [] || any (λ c. c == b' ' || c == b'\t') argument
        then usage
        else connect argument)
    else if same command (codes "send")
    then or_usage send (parse_path_arguments argument)
    else if same command (codes "cancel")
    then alone argument cancel
    else if same command (codes "disconnect")
    then alone argument disconnect
    else if same command (codes "keep-alive")
    then alone argument keep_alive
    else if same command (codes "quit") || same command (codes "exit")
    then quit
    else if same command (codes "help")
    then help
    else if any (same command) (
        codes "accept"
        ∷ codes "reject"
        ∷ codes "destination"
        ∷ codes "details"
        ∷ codes "cleanup-staging"
        ∷ [])
    then no_offer
    else unknown

through : Option Action → Action → Action
through none action = action
through (some action) _ = action

-- `confirming` and `reviewing` are what the two answer functions read from the state: a current
-- attempt waits for its code, or its incoming offer waits for a decision.
pub handle_line : Bool → Bool → Bytes → Action
handle_line confirming reviewing line =
    let trimmed = trim_space line in
    let (command, argument) = split_command trimmed in
    if same trimmed []
    then ignore
    else if confirming
    then answer_confirmation (to_lower trimmed)
    else if reviewing
    then through (answer_offer command argument) (run_command command argument)
    else run_command command argument

abbrev pub SaysYes : Bytes → Type 0
SaysYes line = (to_lower (trim_space line) ≡ codes "yes") ⊎ (to_lower (trim_space line) ≡ codes "y")

run_command-answer :
    (command : List ℕ) (argument : Bytes) (b : Bool) → run_command command argument ≢ answer b
unfolding run_command
run_command-answer command argument b h = ground arith

through-answer :
    (command : List ℕ) (argument : Bytes) (b : Bool)
    → through (answer_offer command argument) (run_command command argument) ≢ answer b
unfolding answer_offer through
through-answer command argument b h = ground (arith, run_command-answer command argument b)

answer_confirmation_iff :
    (line : List ℕ)
    → (answer_confirmation line ≡ answer true) ↔ ((line ≡ codes "yes") ⊎ (line ≡ codes "y"))
unfolding answer_confirmation
answer_confirmation_iff line = (
  λ h. ground (arith, same_iff line (codes "yes"), same_iff line (codes "y")),
  λ h. ground (arith, same_iff line (codes "yes"), same_iff line (codes "y")),
)

SaysYes-ne-nil :
    (text : Bytes) → (to_lower text ≡ codes "yes") ⊎ (to_lower text ≡ codes "y") → text ≢ []
unfolding to_lower runes
SaysYes-ne-nil [] h e = elim h [ inl p ↦ cc | inr p ↦ cc ]
SaysYes-ne-nil (c ∷ text) h e = cc

-- A code is confirmed by nothing but a typed yes or y, and only while the code is waiting for it.
pub handle_line-confirms :
    (confirming reviewing : Bool) (line : Bytes)
    → (handle_line confirming reviewing line ≡ answer true) ↔ ((confirming ≡ true) × SaysYes line)
unfolding handle_line
handle_line-confirms true reviewing line =
    let text = trim_space line in
    (
      λ h. (refl, ground (arith, answer_confirmation_iff (to_lower text))),
      λ h. ground (
        arith,
        (answer_confirmation_iff (to_lower text)).1 h.1,
        SaysYes-ne-nil text h.1,
        same_iff text [],
      ),
    )
handle_line-confirms false reviewing line =
    let text = trim_space line in
    let command = (split_command text).0 in
    let argument = (split_command text).1 in
    (
      λ h.
          ground
            (arith, through-answer command argument true, run_command-answer command argument true),
      λ h. cc,
    )

answer_offer-none :
    (command : List ℕ) (argument : Bytes)
    → answer_offer command argument ≡ none
    → any (same command) allowed_words ≡ true
unfolding answer_offer
answer_offer-none command argument h = ground arith

answer_offer-ne :
    (command : List ℕ) (argument target : Bytes)
    → (answer_offer command argument ≢ some (connect target))
      × (answer_offer command argument ≢ some cancel)
unfolding answer_offer
answer_offer-ne command argument target = (λ h. ground arith, λ h. ground arith)

run_command-connect :
    (command : List ℕ) (argument target : Bytes)
    → run_command command argument ≡ connect target
    → command ≡ codes "connect"
unfolding run_command
run_command-connect command argument target h = ground (arith, same_iff command (codes "connect"))

run_command-cancel :
    (command : List ℕ) (argument : Bytes)
    → run_command command argument ≡ cancel
    → command ≡ codes "cancel"
unfolding run_command
run_command-cancel command argument h = ground (arith, same_iff command (codes "cancel"))

-- What answerPendingOffer lets through neither connects nor cancels.
allowed-ne :
    (command : List ℕ) (argument target : Bytes)
    → any (same command) allowed_words ≡ true
    → (run_command command argument ≢ connect target) × (run_command command argument ≢ cancel)
allowed-ne command argument target h = (
  λ e. cc (
      subst (λ c. any (same c) allowed_words ≡ true) (run_command-connect command argument target e)
        h),
  λ e.
      cc (subst (λ c. any (same c) allowed_words ≡ true) (run_command-cancel command argument e) h),
)

-- While an offer waits for its decision, no line connects or cancels.
handle_line-reviewing :
    (line target : Bytes)
    → (handle_line false true line ≢ connect target) × (handle_line false true line ≢ cancel)
unfolding handle_line through
handle_line-reviewing line target =
    let command = (split_command (trim_space line)).0 in
    let argument = (split_command (trim_space line)).1 in
    (
      λ h. ground (
        arith,
        answer_offer-ne command argument target,
        answer_offer-none command argument,
        allowed-ne command argument target,
      ),
      λ h. ground (
        arith,
        answer_offer-ne command argument target,
        answer_offer-none command argument,
        allowed-ne command argument target,
      ),
    )
