-- ===== src/Storage/Times/Order.antt =====
-- Within a day, the texts of times are in the order of their seconds.
use grepod.Prelude.{
  ℕ, ◌/◌, ◌%◌, ◌<◌, ◌≡◌, refl, ap, sym, ◌∙◌, true, [], ◌∷◌, ◌++◌, ltb, nat_beq, ◌&&◌, ◌||◌, Text,
  text_ltb, arith,
}
use grepod.Storage.Line.{Time}
use grepod.Storage.Shards.{day_length, day_of}
use grepod.Storage.Dates.{format_date}
use grepod.Storage.Times.{second, two_digits, write_clock, write_nanos, format_time}

text_ltb-append : (p s t : Text) → text_ltb (p ++ s) (p ++ t) ≡ text_ltb s t
text_ltb-append [] s t = refl
text_ltb-append (c ∷ p) s t = ground (arith, text_ltb-append p s t)

text_ltb-two :
    (a b : ℕ) (s t : Text)
    → a < 100
    → b < 100
    → text_ltb (two_digits a s) (two_digits b t) ≡ (ltb a b || (nat_beq a b && text_ltb s t))
text_ltb-two a b s t h h' = ground arith

write_clock-order :
    (n m : ℕ) (s t : Text)
    → n < m
    → m < 86_400
    → text_ltb (write_clock n s) (write_clock m t) ≡ true
write_clock-order n m s t h h' =
    rw
      (
        text_ltb-two (n / 3600) (m / 3600)
            (b':' ∷ two_digits (n / 60 % 60) (b':' ∷ two_digits (n % 60) s))
            (b':' ∷ two_digits (m / 60 % 60) (b':' ∷ two_digits (m % 60) t)) (omega arith)
            (omega arith),
        text_ltb-two (n / 60 % 60) (m / 60 % 60) (b':' ∷ two_digits (n % 60) s)
            (b':' ∷ two_digits (m % 60) t) (omega arith) (omega arith),
        text_ltb-two (n % 60) (m % 60) s t (omega arith) (omega arith),
      )
      (ground arith)

-- Of two times of a day, that of the earlier second has the smaller text.
pub format_time-order :
    (t u : Time)
    → day_of t ≡ day_of u
    → t / second < u / second
    → text_ltb (format_time t) (format_time u) ≡ true
unfolding format_time
format_time-order t u same h =
    let clock =
      write_clock-order (t % day_length / second) (u % day_length / second)
        (write_nanos (t % second) (b'Z' ∷ [])) (write_nanos (u % second) (b'Z' ∷ []))
        (omega (arith, same)) (omega arith) in
    ap
      (λ d. text_ltb (format_time t) (
        format_date d
        ++ b'T' ∷ write_clock (u % day_length / second) (write_nanos (u % second) (b'Z' ∷ []))))
      (sym same)
    ∙ (text_ltb-append (format_date (day_of t)) _ _ ∙ clock)
