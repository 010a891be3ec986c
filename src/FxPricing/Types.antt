-- ===== src/FxPricing/Types.antt =====
-- examples/fx_pricing/types.rs.
use reactive_graph_experimen.Base.{
  ℕ, ◌+◌, ◌-◌, ◌≤◌, ◌<◌, ◌≡◌, ◌≢◌, ◌↔◌, refl, sym, true, false, ◌&&◌, inl, inr, if◌then◌else◌, [],
  ◌∷◌, ◌++◌, map, leb, arith, Text, text_eq, text_beq, ◌==◌, ap, ◌∙◌, contains, eq_cases, nat_eq,
}

pub data CurrencyPair : Type 0 where
  eurusd gbpusd usdjpy audusd : CurrencyPair

pub data Side : Type 0 where
  bid ask : Side

-- `Result<CurrencyPair, String>`
pub data Parsed : Type 0 where
  ok : (pair : CurrencyPair) → Parsed
  err : (message : Text) → Parsed

-- `Display for CurrencyPair`: the texts EURUSD, GBPUSD, USDJPY and AUDUSD.
unfoldable pub display : CurrencyPair → Text
display eurusd = 69 ∷ 85 ∷ 82 ∷ 85 ∷ 83 ∷ 68 ∷ []
display gbpusd = 71 ∷ 66 ∷ 80 ∷ 85 ∷ 83 ∷ 68 ∷ []
display usdjpy = 85 ∷ 83 ∷ 68 ∷ 74 ∷ 80 ∷ 89 ∷ []
display audusd = 65 ∷ 85 ∷ 68 ∷ 85 ∷ 83 ∷ 68 ∷ []

-- `Display for Side`: bid and ask.
unfoldable pub display_side : Side → Text
display_side bid = 98 ∷ 105 ∷ 100 ∷ []
display_side ask = 97 ∷ 115 ∷ 107 ∷ []

-- `str::to_uppercase`, for the characters that a character is mapped to.
unfoldable pub to_uppercase : (ℕ → Text) → Text → Text
to_uppercase upper [] = []
to_uppercase upper (c ∷ cs) = upper c ++ to_uppercase upper cs

-- `"Unknown currency pair: "`
abbrev pub unknown_currency_pair : Text
unknown_currency_pair =
    85 ∷ 110 ∷ 107 ∷ 110 ∷ 111 ∷ 119 ∷ 110 ∷ 32 ∷ 99 ∷ 117 ∷ 114 ∷ 114 ∷ 101 ∷ 110 ∷ 99 ∷ 121 ∷ 32
    ∷ 112 ∷ 97 ∷ 105 ∷ 114 ∷ 58 ∷ 32 ∷ []

-- `FromStr for CurrencyPair`, whose `match` has the texts EURUSD, GBPUSD, USDJPY and AUDUSD of its own.
unfoldable pub from_str : (ℕ → Text) → Text → Parsed
unfolding to_uppercase
from_str upper s =
    let t = to_uppercase upper s in
    if t == 69 ∷ 85 ∷ 82 ∷ 85 ∷ 83 ∷ 68 ∷ []
    then ok eurusd
    else if t == 71 ∷ 66 ∷ 80 ∷ 85 ∷ 83 ∷ 68 ∷ []
    then ok gbpusd
    else if t == 85 ∷ 83 ∷ 68 ∷ 74 ∷ 80 ∷ 89 ∷ []
    then ok usdjpy
    else if t == 65 ∷ 85 ∷ 68 ∷ 85 ∷ 83 ∷ 68 ∷ []
    then ok audusd
    else err (unknown_currency_pair ++ s)

pub record SpreadQuote : Type 0 where
  pub pair : CurrencyPair
  pub client : Text
  pub trade_id : Text
  pub bid : ℕ
  pub ask : ℕ
  pub mid : ℕ
  pub spread_bps : ℕ

pub record TradeRequest : Type 0 where
  pub pair : Text
  pub spread_bps : ℕ
  pub client : Text

pub record TradeResponse : Type 0 where
  pub trade_id : Text
  pub pair : Text
  pub client : Text
  pub spread_bps : ℕ

pub record TradeInfo : Type 0 where
  pub trade_id : Text
  pub pair : Text
  pub client : Text
  pub spread_bps : ℕ

-- What is documented of `char::to_uppercase` on ASCII.
pub record IsUpper (upper : ℕ → Text) : Type 0 where
  pub letter : (c : ℕ) → 97 ≤ c → c ≤ 122 → upper c ≡ (c - 32) ∷ []
  pub other : (c : ℕ) → c < 97 → upper c ≡ c ∷ []

-- `str::to_ascii_lowercase` on the texts of `display`.
abbrev pub lower : Text → Text
lower s = map (λ c. if leb 65 c && leb c 90 then c + 32 else c) s

capital :
    (upper : ℕ → Text)
    → IsUpper upper
    → (c : ℕ) (cs ds : Text) → c < 97
    → to_uppercase upper cs ≡ ds
    → to_uppercase upper (c ∷ cs) ≡ c ∷ ds
unfolding to_uppercase
capital upper is_upper c cs ds small rest = rw (is_upper.other c small, rest) refl

small :
    (upper : ℕ → Text)
    → IsUpper upper
    → (c : ℕ) (cs ds : Text) → 97 ≤ c
    → c ≤ 122
    → to_uppercase upper cs ≡ ds
    → to_uppercase upper (c ∷ cs) ≡ (c - 32) ∷ ds
unfolding to_uppercase
small upper is_upper c cs ds above below rest = rw (is_upper.letter c above below, rest) refl

-- A capital stays, and its small letter becomes it.
abbrev IsCapital : ℕ → Type 0
IsCapital c = (65 ≤ c) × (c ≤ 90)

abbrev AllCapitals : Text → Type 0
AllCapitals s = (c : ℕ) → contains s c ≡ true → IsCapital c

upper-capitals :
    (upper : ℕ → Text) → IsUpper upper → (s : Text) → AllCapitals s → to_uppercase upper s ≡ s
unfolding to_uppercase contains
upper-capitals upper is_upper [] all = refl
upper-capitals upper is_upper (c ∷ cs) all =
    let k = all c (ground (arith)) in
    capital upper is_upper c cs cs (omega (arith, k))
      (upper-capitals upper is_upper cs (λ d m. all d (ground (arith, m))))

upper-lowered :
    (upper : ℕ → Text)
    → IsUpper upper
    → (s : Text) → AllCapitals s
    → to_uppercase upper (lower s) ≡ s
unfolding to_uppercase contains
upper-lowered upper is_upper [] all = refl
upper-lowered upper is_upper (c ∷ cs) all =
    let k = all c (ground arith) in
    let lowered : (if leb 65 c && leb c 90 then c + 32 else c) ≡ c + 32 = ground (arith, k) in
    let back : (c + 32) - 32 ≡ c = omega arith in
    rw lowered (
      small upper is_upper (c + 32) (lower cs) cs (omega (arith, k)) (omega (arith, k))
        (upper-lowered upper is_upper cs (λ d m. all d (ground (arith, m))))
      ∙ ap (λ n. n ∷ cs) back)

display-AllCapitals : (pair : CurrencyPair) → AllCapitals (display pair)
unfolding display contains
display-AllCapitals eurusd c m = ground (arith, m)
display-AllCapitals gbpusd c m = ground (arith, m)
display-AllCapitals usdjpy c m = ground (arith, m)
display-AllCapitals audusd c m = ground (arith, m)

-- The pair that stands in the text, if there is one, is the pair that is read.
read_pair :
    (upper : ℕ → Text) (s : Text) (pair : CurrencyPair)
    → to_uppercase upper s ≡ display pair
    → from_str upper s ≡ ok pair
unfolding from_str display text_beq
read_pair upper s eurusd same = rw (same, from_str) refl
read_pair upper s gbpusd same = rw (same, from_str) refl
read_pair upper s usdjpy same = rw (same, from_str) refl
read_pair upper s audusd same = rw (same, from_str) refl

unknown :
    (upper : ℕ → Text) (s : Text)
    → (to_uppercase upper s == display eurusd) ≡ false
    → (to_uppercase upper s == display gbpusd) ≡ false
    → (to_uppercase upper s == display usdjpy) ≡ false
    → (to_uppercase upper s == display audusd) ≡ false
    → from_str upper s ≡ err (unknown_currency_pair ++ s)
unfolding from_str display
unknown upper s e g u a = rw (e, g, u, a, from_str) refl

unknown_not_ok : {message : Text} {pair : CurrencyPair} → err message ≡ ok pair → ⊥
unknown_not_ok h = ground (arith, h)

-- Only one pair can be read.
same_pair :
    (upper : ℕ → Text) (s : Text) (pair named : CurrencyPair)
    → from_str upper s ≡ ok pair
    → to_uppercase upper s ≡ display named
    → to_uppercase upper s ≡ display pair
same_pair upper s pair named read same =
    let both = sym (read_pair upper s named same) ∙ read in
    same ∙ ap display (ap (λ r. elim r [ ok p ↦ p | err message ↦ named ]) both)

pair_read :
    (upper : ℕ → Text) (s : Text) (pair : CurrencyPair)
    → from_str upper s ≡ ok pair
    → to_uppercase upper s ≡ display pair
unfolding from_str
pair_read upper s pair read =
    let t = to_uppercase upper s in
    elim (eq_cases t (display eurusd)) [
      | inl h ↦ same_pair upper s pair eurusd read h.1
      | inr not_eurusd ↦ elim (eq_cases t (display gbpusd)) [
        | inl h ↦ same_pair upper s pair gbpusd read h.1
        | inr not_gbpusd ↦ elim (eq_cases t (display usdjpy)) [
          | inl h ↦ same_pair upper s pair usdjpy read h.1
          | inr not_usdjpy ↦ elim (eq_cases t (display audusd)) [
            | inl h ↦ same_pair upper s pair audusd read h.1
            | inr not_audusd ↦ absurd (
                unknown_not_ok (
                  sym (unknown upper s not_eurusd.0 not_gbpusd.0 not_usdjpy.0 not_audusd.0) ∙ read))
          ]
        ]
      ]
    ]

-- A pair is read from exactly those texts that are the pair's name in upper case.
pub from_str_iff :
    (upper : ℕ → Text) (s : Text) (pair : CurrencyPair)
    → (from_str upper s ≡ ok pair) ↔ (to_uppercase upper s ≡ display pair)
from_str_iff upper s pair = (pair_read upper s pair, read_pair upper s pair)

-- What `Display` prints, `FromStr` reads, also in lower case.
pub from_str-display :
    (upper : ℕ → Text)
    → IsUpper upper
    → (pair : CurrencyPair)
    → (from_str upper (display pair) ≡ ok pair) × (from_str upper (lower (display pair)) ≡ ok pair)
from_str-display upper is_upper pair = (
  read_pair upper (display pair) pair
      (upper-capitals upper is_upper (display pair) (display-AllCapitals pair)),
  read_pair upper (lower (display pair)) pair
      (upper-lowered upper is_upper (display pair) (display-AllCapitals pair)),
)

-- A text that is no pair's name is refused with a message that ends in it.
pub from_str_unknown :
    (upper : ℕ → Text) (s : Text)
    → ((pair : CurrencyPair) → to_uppercase upper s ≢ display pair)
    → from_str upper s ≡ err (unknown_currency_pair ++ s)
from_str_unknown upper s no_pair =
    unknown upper s (differ eurusd) (differ gbpusd) (differ usdjpy) (differ audusd)
  where
    differ : (pair : CurrencyPair) → (to_uppercase upper s == display pair) ≡ false
    differ pair = elim (eq_cases (to_uppercase upper s) (display pair)) [
      | inl same ↦ absurd (no_pair pair same.1)
      | inr other ↦ other.0
    ]

-- A text that is not read is no pair's name in upper case, and the message has the text in it.
pub from_str-err :
    (upper : ℕ → Text) (s message : Text)
    → from_str upper s ≡ err message
    → (message ≡ unknown_currency_pair ++ s)
      × ¬ ((pair : CurrencyPair) × (to_uppercase upper s ≡ display pair))
from_str-err upper s message failed = (
  ap (λ r. elim r [ ok p ↦ message | err m ↦ m ]) (sym failed ∙ refused),
  λ (pair, same). no_pair pair same,
)
  where
    no_pair : (pair : CurrencyPair) → to_uppercase upper s ≢ display pair
    no_pair pair same = unknown_not_ok (sym failed ∙ read_pair upper s pair same)

    refused : from_str upper s ≡ err (unknown_currency_pair ++ s)
    refused = from_str_unknown upper s no_pair
