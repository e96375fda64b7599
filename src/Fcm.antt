-- ===== src/Fcm.antt =====
-- class FcmSender (include/fcmsender.h, src/fcmsender.cpp): the body of a push message, and the
-- callbacks by which curl reads it and gives back the answer. Texts are lists of character codes;
-- curl itself is a parameter of Fcm/Send.
pub mod Send
pub mod Examples
use zway_server.Base.{
  ℕ, zero, suc, ◌+◌, ◌-◌, ◌*◌, ◌/◌, ◌%◌, ◌<◌, ◌≡◌, ◌∙◌, ap, String, List, [], ◌∷◌, ◌++◌, Option,
  none, some, arith, ltb, Bool-cases, inl, inr, length, if◌then◌else◌,
}
use mathlib.Core.Option
use Prim.Native.Char.{code}

abbrev pub codes : String → List ℕ
codes String.[] = []
codes (String.◌∷◌ c s) = code c ∷ codes s

-- `<<` of an unsigned number; the fuel is the number itself and one more, which its digits cannot
-- exceed.
unfoldable pub digits_from : ℕ → ℕ → List ℕ → List ℕ
digits_from zero n rest = rest
digits_from (suc f) n rest =
    let more = digits_from f (n / 10) ((48 + n % 10) ∷ rest) in
    if ltb n 10 then (48 + n) ∷ rest else more

unfoldable pub decimal : ℕ → List ℕ
unfolding digits_from
decimal n = digits_from (n + 1) n []

-- The text that `sendMessage` builds.
unfoldable pub message_body : List ℕ → ℕ → ℕ → List ℕ
unfolding decimal
message_body token type num_elements =
    codes "{\"to\":\""
    ++ (token
        ++ (codes "\",\"priority\":\"normal\",\"data\":{\"type\":\""
            ++ (decimal type
                ++ (codes "\",\"numElements\":\"" ++ (decimal num_elements ++ codes "\"}}")))))

-- struct WriteThis: what is left of the text, with the count of its bytes.
pub record WriteThis : Type 0 where
  pub readptr : List ℕ
  pub size_left : ℕ

head_of : List ℕ → ℕ
head_of [] = 0
head_of (c ∷ cs) = c

tail_of : List ℕ → List ℕ
tail_of [] = []
tail_of (c ∷ cs) = cs

-- The bytes that `readCallback` puts into curl's buffer (its result is their number), and the rest.
unfoldable pub read_callback : ℕ → ℕ → WriteThis → List ℕ × WriteThis
unfolding head_of tail_of
read_callback size nmemb w =
    if ltb (size * nmemb) 1
    then ([], w)
    else if ltb 0 w.size_left
    then (
      head_of w.readptr ∷ [],
      record { readptr = tail_of w.readptr; size_left = w.size_left - 1 },
    )
    else ([], w)

unfoldable pub write_callback : ℕ → ℕ → ℕ
write_callback size nmemb = size * nmemb

-- What a callback for reading is to curl: by the size of the buffer, the bytes, and what is left.
abbrev pub ReadFunction : Type 0
ReadFunction = ℕ → ℕ → WriteThis → List ℕ × WriteThis

-- curl calls the callback until it gives no byte: the bytes it gets, with the end of the loop.
unfoldable pub transfer : ReadFunction → ℕ → ℕ → ℕ → WriteThis → Option (List ℕ)
transfer read zero size nmemb w = none
transfer read (suc f) size nmemb w =
    let (bytes, w') = read size nmemb w in
    let rest = transfer read f size nmemb w' in
    if ltb 0 (length bytes) then Option.map (λ l. bytes ++ l) rest else some []

abbrev pub holding : List ℕ → WriteThis
holding text = record { readptr = text; size_left = length text }

read_callback-done : (size nmemb : ℕ) → read_callback size nmemb (holding []) ≡ ([], holding [])
unfolding read_callback
read_callback-done size nmemb = ground arith

read_callback-holding :
    (size nmemb c : ℕ) (text : List ℕ)
    → 0 < size * nmemb
    → read_callback size nmemb (holding (c ∷ text)) ≡ (c ∷ [], holding text)
unfolding read_callback
read_callback-holding size nmemb c text pos = ground arith

-- Whatever the buffers are that curl offers, if they are not empty: the loop ends, after at most
-- one call more than the text has bytes, and curl has got the text, each byte once and in order.
pub transfer_lem :
    (size nmemb f : ℕ) (text : List ℕ)
    → 0 < size * nmemb
    → length text < f
    → transfer read_callback f size nmemb (holding text) ≡ some text
unfolding transfer
transfer_lem size nmemb zero text pos h = absurd (omega arith)
transfer_lem size nmemb (suc f) [] pos h = rw (read_callback-done size nmemb)
transfer_lem size nmemb (suc f) (c ∷ text) pos h =
    rw (
      read_callback-holding size nmemb c text pos,
      transfer_lem size nmemb f text pos (omega arith),
    )

-- The number that a text of digits stands for.
unfoldable pub value_of : ℕ → List ℕ → ℕ
value_of acc [] = acc
value_of acc (d ∷ ds) = value_of (acc * 10 + (d - 48)) ds

digit : (n : ℕ) → 0 * 10 + (48 + n - 48) ≡ n
digit n = omega arith

last_digit : (n : ℕ) → n / 10 * 10 + (48 + n % 10 - 48) ≡ n
last_digit n = omega arith

digits_from-value :
    (f n : ℕ) (rest : List ℕ) → n < f → value_of 0 (digits_from f n rest) ≡ value_of n rest
unfolding digits_from value_of
digits_from-value zero n rest h = absurd (omega arith)
digits_from-value (suc f) n rest h = elim (Bool-cases (ltb n 10)) [
  | inl small ↦ rw small (ap (λ v. value_of v rest) (digit n))
  | inr large ↦ rw large (
      digits_from-value f (n / 10) ((48 + n % 10) ∷ rest) (ground arith)
      ∙ ap (λ v. value_of v rest) (last_digit n))
]

-- The digits of a number, read back, are that number.
pub value_of-decimal : (n : ℕ) → value_of 0 (decimal n) ≡ n
unfolding decimal value_of
value_of-decimal n = digits_from-value (n + 1) n [] (omega arith)
