-- ===== src/Examples/Report.antt =====
-- `report` of examples/capacityseeker/main.go: the loop that adds up what comes through the channel
-- and prints a line each second. The lines are those on the standard output, without the seconds.
use panapi.Prelude.{ℕ, ◌+◌, ◌<◌, List, [], ◌∷◌, ◌++◌, map, ◌≡◌, refl, arith, subst, ap, ◌∙◌}
use panapi.Golang.Int64.{ℤ, pos, add, add-pos, int64_limit}

-- what the `select` finds: a number in the channel, or a second that has passed
pub data Event : Type 0 where
  bytes : ℕ → Event
  tick : Event

-- the variables, and the lines that were printed: the bytes of the second and those in total
pub record Report : Type 0 where
  pub total : ℤ
  pub subtotal : ℤ
  pub lines : List (ℤ × ℤ)

abbrev pub begin : Report
begin = record { total = pos 0; subtotal = pos 0; lines = [] }

unfoldable pub step : Event → Report → Report
step (bytes n) r = record r { subtotal = add r.subtotal (pos n) }
step tick r =
    let total = add r.total r.subtotal in
    record { total = total; subtotal = pos 0; lines = r.lines ++ ((r.subtotal, total) ∷ []) }

unfoldable pub report : List Event → Report → Report
unfolding step
report [] r = r
report (e ∷ es) r = report es (step e r)

-- the bytes that came in during some events
abbrev pub received : List Event → ℕ
received [] = 0
received (bytes n ∷ es) = n + received es
received (tick ∷ es) = received es

-- the bytes in the lines
abbrev pub in_lines : List (ℕ × ℕ) → ℕ
in_lines [] = 0
in_lines ((subtotal, total) ∷ ls) = subtotal + in_lines ls

abbrev pub last_total : ℕ → List (ℕ × ℕ) → ℕ
last_total n [] = n
last_total n ((subtotal, total) ∷ ls) = last_total total ls

in_lines-append :
    (ls : List (ℕ × ℕ)) (subtotal total : ℕ)
    → in_lines (ls ++ ((subtotal, total) ∷ [])) ≡ in_lines ls + subtotal
in_lines-append [] subtotal total = omega arith
in_lines-append ((s, t) ∷ ls) subtotal total = ground (arith, in_lines-append ls subtotal total)

last_total-append :
    (ls : List (ℕ × ℕ)) (n subtotal total : ℕ)
    → last_total n (ls ++ ((subtotal, total) ∷ [])) ≡ total
last_total-append [] n subtotal total = refl
last_total-append ((s, t) ∷ ls) n subtotal total = last_total-append ls t subtotal total

-- a line with two numbers that are not negative
abbrev pub line : ℕ × ℕ → ℤ × ℤ
line (subtotal, total) = (pos subtotal, pos total)

map-snoc :
    (ls : List (ℕ × ℕ)) (l : ℕ × ℕ) → map line ls ++ (line l ∷ []) ≡ map line (ls ++ (l ∷ []))
map-snoc [] l = refl
map-snoc (x ∷ ls) l = ap (λ ys. line x ∷ ys) (map-snoc ls l)

-- what holds of the variables when `n` bytes have come in: nothing is lost or counted twice
pub record IsAccount (n : ℕ) (r : Report) : Type 0 where
  pub before : ℕ
  pub during : ℕ
  pub printed : List (ℕ × ℕ)
  pub total_shows : r.total ≡ pos before
  pub subtotal_shows : r.subtotal ≡ pos during
  pub lines_show : r.lines ≡ map line printed
  pub all_counted : before + during ≡ n
  pub lines_add_up : in_lines printed ≡ before
  pub last_line : last_total 0 printed ≡ before

step-IsAccount :
    (e : Event) (n : ℕ) (r : Report)
    → IsAccount n r
    → n + received (e ∷ []) < int64_limit
    → IsAccount (n + received (e ∷ [])) (step e r)
unfolding step
step-IsAccount (bytes b) n r a small =
    let counted = a.all_counted in
    record {
      before = a.before;
      during = a.during + b;
      printed = a.printed;
      total_shows = a.total_shows;
      subtotal_shows = ap (λ z. add z (pos b)) a.subtotal_shows ∙ add-pos a.during b (omega arith);
      lines_show = a.lines_show;
      all_counted = omega arith;
      lines_add_up = a.lines_add_up;
      last_line = a.last_line;
    }
step-IsAccount tick n r a small =
    let counted = a.all_counted in
    let summed = a.lines_add_up in
    let appended = in_lines-append a.printed a.during (a.before + a.during) in
    let sum : add r.total r.subtotal ≡ pos (a.before + a.during) =
      rw (a.total_shows, a.subtotal_shows) (add-pos a.before a.during (omega arith)) in
    record {
      before = a.before + a.during;
      during = 0;
      printed = a.printed ++ ((a.during, a.before + a.during) ∷ []);
      total_shows = sum;
      subtotal_shows = refl;
      lines_show =
          rw (a.lines_show, sum, a.subtotal_shows)
            (map-snoc a.printed (a.during, a.before + a.during));
      all_counted = omega arith;
      lines_add_up = omega arith;
      last_line = last_total-append a.printed 0 _ _;
    }

received-cons : (e : Event) (es : List Event) → received (e ∷ es) ≡ received (e ∷ []) + received es
received-cons (bytes n) es = omega arith
received-cons tick es = omega arith

report_from :
    (es : List Event) (n : ℕ) (r : Report)
    → IsAccount n r
    → n + received es < int64_limit
    → IsAccount (n + received es) (report es r)
unfolding report
report_from [] n r a small = subst (λ m. IsAccount m r) {x = n} (omega arith) a
report_from (e ∷ es) n r a small =
    let split = received-cons e es in
    subst (λ m. IsAccount m (report es (step e r))) {x = n + received (e ∷ []) + received es}
      (omega arith)
      (report_from es (n + received (e ∷ [])) (step e r) (step-IsAccount e n r a (omega arith))
        (omega arith))

-- As long as fewer than 2 ^ 63 bytes have come in, after any events the variables and the lines hold
-- numbers that are not negative: the variables together the number of bytes that came in, the bytes
-- of the printed seconds add up to the total, and the last line shows the total.
pub report-IsAccount :
    (es : List Event) → received es < int64_limit → IsAccount (received es) (report es begin)
report-IsAccount es small =
    subst (λ m. IsAccount m (report es begin)) {x = 0 + received es} (omega arith)
      (report_from es 0 begin
        (record {
          before = 0;
          during = 0;
          printed = [];
          total_shows = refl;
          subtotal_shows = refl;
          lines_show = refl;
          all_counted = refl;
          lines_add_up = refl;
          last_line = refl;
        })
        (omega arith))
