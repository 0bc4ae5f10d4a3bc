-- ===== src/Galois/Tables.antt =====
-- The tables as they are after `_init_gf`, and what they satisfy, entry by entry.
use Prim.Native.Nat.{bit_xor}
use suwappu_lattice_protocol.Prelude.{
  ℕ, zero, suc, ◌%◌, ◌<◌, ◌≡◌, refl, Bool, true, false, ◌&&◌, ◌||◌, ==-cases, List, [], ◌∷◌, ◌==◌,
  ltb, if◌then◌else◌, Bool-cases, inl, inr, arith,
}
use suwappu_lattice_protocol.Galois.{entry, set_entry, shift_reduce, fill, repeat_powers, init_gf}

powers : List ℕ
powers =
    1 ∷ 2 ∷ 4 ∷ 8 ∷ 16 ∷ 32 ∷ 64 ∷ 128 ∷ 29 ∷ 58 ∷ 116 ∷ 232 ∷ 205 ∷ 135 ∷ 19 ∷ 38 ∷ 76 ∷ 152 ∷ 45
    ∷ 90 ∷ 180 ∷ 117 ∷ 234 ∷ 201 ∷ 143 ∷ 3 ∷ 6 ∷ 12 ∷ 24 ∷ 48 ∷ 96 ∷ 192 ∷ 157 ∷ 39 ∷ 78 ∷ 156 ∷ 37
    ∷ 74 ∷ 148 ∷ 53 ∷ 106 ∷ 212 ∷ 181 ∷ 119 ∷ 238 ∷ 193 ∷ 159 ∷ 35 ∷ 70 ∷ 140 ∷ 5 ∷ 10 ∷ 20 ∷ 40
    ∷ 80 ∷ 160 ∷ 93 ∷ 186 ∷ 105 ∷ 210 ∷ 185 ∷ 111 ∷ 222 ∷ 161 ∷ 95 ∷ 190 ∷ 97 ∷ 194 ∷ 153 ∷ 47 ∷ 94
    ∷ 188 ∷ 101 ∷ 202 ∷ 137 ∷ 15 ∷ 30 ∷ 60 ∷ 120 ∷ 240 ∷ 253 ∷ 231 ∷ 211 ∷ 187 ∷ 107 ∷ 214 ∷ 177
    ∷ 127 ∷ 254 ∷ 225 ∷ 223 ∷ 163 ∷ 91 ∷ 182 ∷ 113 ∷ 226 ∷ 217 ∷ 175 ∷ 67 ∷ 134 ∷ 17 ∷ 34 ∷ 68 ∷ 136
    ∷ 13 ∷ 26 ∷ 52 ∷ 104 ∷ 208 ∷ 189 ∷ 103 ∷ 206 ∷ 129 ∷ 31 ∷ 62 ∷ 124 ∷ 248 ∷ 237 ∷ 199 ∷ 147 ∷ 59
    ∷ 118 ∷ 236 ∷ 197 ∷ 151 ∷ 51 ∷ 102 ∷ 204 ∷ 133 ∷ 23 ∷ 46 ∷ 92 ∷ 184 ∷ 109 ∷ 218 ∷ 169 ∷ 79 ∷ 158
    ∷ 33 ∷ 66 ∷ 132 ∷ 21 ∷ 42 ∷ 84 ∷ 168 ∷ 77 ∷ 154 ∷ 41 ∷ 82 ∷ 164 ∷ 85 ∷ 170 ∷ 73 ∷ 146 ∷ 57 ∷ 114
    ∷ 228 ∷ 213 ∷ 183 ∷ 115 ∷ 230 ∷ 209 ∷ 191 ∷ 99 ∷ 198 ∷ 145 ∷ 63 ∷ 126 ∷ 252 ∷ 229 ∷ 215 ∷ 179
    ∷ 123 ∷ 246 ∷ 241 ∷ 255 ∷ 227 ∷ 219 ∷ 171 ∷ 75 ∷ 150 ∷ 49 ∷ 98 ∷ 196 ∷ 149 ∷ 55 ∷ 110 ∷ 220
    ∷ 165 ∷ 87 ∷ 174 ∷ 65 ∷ 130 ∷ 25 ∷ 50 ∷ 100 ∷ 200 ∷ 141 ∷ 7 ∷ 14 ∷ 28 ∷ 56 ∷ 112 ∷ 224 ∷ 221
    ∷ 167 ∷ 83 ∷ 166 ∷ 81 ∷ 162 ∷ 89 ∷ 178 ∷ 121 ∷ 242 ∷ 249 ∷ 239 ∷ 195 ∷ 155 ∷ 43 ∷ 86 ∷ 172 ∷ 69
    ∷ 138 ∷ 9 ∷ 18 ∷ 36 ∷ 72 ∷ 144 ∷ 61 ∷ 122 ∷ 244 ∷ 245 ∷ 247 ∷ 243 ∷ 251 ∷ 235 ∷ 203 ∷ 139 ∷ 11
    ∷ 22 ∷ 44 ∷ 88 ∷ 176 ∷ 125 ∷ 250 ∷ 233 ∷ 207 ∷ 131 ∷ 27 ∷ 54 ∷ 108 ∷ 216 ∷ 173 ∷ 71 ∷ 142 ∷ 1
    ∷ 2 ∷ 4 ∷ 8 ∷ 16 ∷ 32 ∷ 64 ∷ 128 ∷ 29 ∷ 58 ∷ 116 ∷ 232 ∷ 205 ∷ 135 ∷ 19 ∷ 38 ∷ 76 ∷ 152 ∷ 45
    ∷ 90 ∷ 180 ∷ 117 ∷ 234 ∷ 201 ∷ 143 ∷ 3 ∷ 6 ∷ 12 ∷ 24 ∷ 48 ∷ 96 ∷ 192 ∷ 157 ∷ 39 ∷ 78 ∷ 156 ∷ 37
    ∷ 74 ∷ 148 ∷ 53 ∷ 106 ∷ 212 ∷ 181 ∷ 119 ∷ 238 ∷ 193 ∷ 159 ∷ 35 ∷ 70 ∷ 140 ∷ 5 ∷ 10 ∷ 20 ∷ 40
    ∷ 80 ∷ 160 ∷ 93 ∷ 186 ∷ 105 ∷ 210 ∷ 185 ∷ 111 ∷ 222 ∷ 161 ∷ 95 ∷ 190 ∷ 97 ∷ 194 ∷ 153 ∷ 47 ∷ 94
    ∷ 188 ∷ 101 ∷ 202 ∷ 137 ∷ 15 ∷ 30 ∷ 60 ∷ 120 ∷ 240 ∷ 253 ∷ 231 ∷ 211 ∷ 187 ∷ 107 ∷ 214 ∷ 177
    ∷ 127 ∷ 254 ∷ 225 ∷ 223 ∷ 163 ∷ 91 ∷ 182 ∷ 113 ∷ 226 ∷ 217 ∷ 175 ∷ 67 ∷ 134 ∷ 17 ∷ 34 ∷ 68 ∷ 136
    ∷ 13 ∷ 26 ∷ 52 ∷ 104 ∷ 208 ∷ 189 ∷ 103 ∷ 206 ∷ 129 ∷ 31 ∷ 62 ∷ 124 ∷ 248 ∷ 237 ∷ 199 ∷ 147 ∷ 59
    ∷ 118 ∷ 236 ∷ 197 ∷ 151 ∷ 51 ∷ 102 ∷ 204 ∷ 133 ∷ 23 ∷ 46 ∷ 92 ∷ 184 ∷ 109 ∷ 218 ∷ 169 ∷ 79 ∷ 158
    ∷ 33 ∷ 66 ∷ 132 ∷ 21 ∷ 42 ∷ 84 ∷ 168 ∷ 77 ∷ 154 ∷ 41 ∷ 82 ∷ 164 ∷ 85 ∷ 170 ∷ 73 ∷ 146 ∷ 57 ∷ 114
    ∷ 228 ∷ 213 ∷ 183 ∷ 115 ∷ 230 ∷ 209 ∷ 191 ∷ 99 ∷ 198 ∷ 145 ∷ 63 ∷ 126 ∷ 252 ∷ 229 ∷ 215 ∷ 179
    ∷ 123 ∷ 246 ∷ 241 ∷ 255 ∷ 227 ∷ 219 ∷ 171 ∷ 75 ∷ 150 ∷ 49 ∷ 98 ∷ 196 ∷ 149 ∷ 55 ∷ 110 ∷ 220
    ∷ 165 ∷ 87 ∷ 174 ∷ 65 ∷ 130 ∷ 25 ∷ 50 ∷ 100 ∷ 200 ∷ 141 ∷ 7 ∷ 14 ∷ 28 ∷ 56 ∷ 112 ∷ 224 ∷ 221
    ∷ 167 ∷ 83 ∷ 166 ∷ 81 ∷ 162 ∷ 89 ∷ 178 ∷ 121 ∷ 242 ∷ 249 ∷ 239 ∷ 195 ∷ 155 ∷ 43 ∷ 86 ∷ 172 ∷ 69
    ∷ 138 ∷ 9 ∷ 18 ∷ 36 ∷ 72 ∷ 144 ∷ 61 ∷ 122 ∷ 244 ∷ 245 ∷ 247 ∷ 243 ∷ 251 ∷ 235 ∷ 203 ∷ 139 ∷ 11
    ∷ 22 ∷ 44 ∷ 88 ∷ 176 ∷ 125 ∷ 250 ∷ 233 ∷ 207 ∷ 131 ∷ 27 ∷ 54 ∷ 108 ∷ 216 ∷ 173 ∷ 71 ∷ 142 ∷ 1
    ∷ 2 ∷ []

logs : List ℕ
logs =
    0 ∷ 0 ∷ 1 ∷ 25 ∷ 2 ∷ 50 ∷ 26 ∷ 198 ∷ 3 ∷ 223 ∷ 51 ∷ 238 ∷ 27 ∷ 104 ∷ 199 ∷ 75 ∷ 4 ∷ 100 ∷ 224
    ∷ 14 ∷ 52 ∷ 141 ∷ 239 ∷ 129 ∷ 28 ∷ 193 ∷ 105 ∷ 248 ∷ 200 ∷ 8 ∷ 76 ∷ 113 ∷ 5 ∷ 138 ∷ 101 ∷ 47
    ∷ 225 ∷ 36 ∷ 15 ∷ 33 ∷ 53 ∷ 147 ∷ 142 ∷ 218 ∷ 240 ∷ 18 ∷ 130 ∷ 69 ∷ 29 ∷ 181 ∷ 194 ∷ 125 ∷ 106
    ∷ 39 ∷ 249 ∷ 185 ∷ 201 ∷ 154 ∷ 9 ∷ 120 ∷ 77 ∷ 228 ∷ 114 ∷ 166 ∷ 6 ∷ 191 ∷ 139 ∷ 98 ∷ 102 ∷ 221
    ∷ 48 ∷ 253 ∷ 226 ∷ 152 ∷ 37 ∷ 179 ∷ 16 ∷ 145 ∷ 34 ∷ 136 ∷ 54 ∷ 208 ∷ 148 ∷ 206 ∷ 143 ∷ 150 ∷ 219
    ∷ 189 ∷ 241 ∷ 210 ∷ 19 ∷ 92 ∷ 131 ∷ 56 ∷ 70 ∷ 64 ∷ 30 ∷ 66 ∷ 182 ∷ 163 ∷ 195 ∷ 72 ∷ 126 ∷ 110
    ∷ 107 ∷ 58 ∷ 40 ∷ 84 ∷ 250 ∷ 133 ∷ 186 ∷ 61 ∷ 202 ∷ 94 ∷ 155 ∷ 159 ∷ 10 ∷ 21 ∷ 121 ∷ 43 ∷ 78
    ∷ 212 ∷ 229 ∷ 172 ∷ 115 ∷ 243 ∷ 167 ∷ 87 ∷ 7 ∷ 112 ∷ 192 ∷ 247 ∷ 140 ∷ 128 ∷ 99 ∷ 13 ∷ 103 ∷ 74
    ∷ 222 ∷ 237 ∷ 49 ∷ 197 ∷ 254 ∷ 24 ∷ 227 ∷ 165 ∷ 153 ∷ 119 ∷ 38 ∷ 184 ∷ 180 ∷ 124 ∷ 17 ∷ 68 ∷ 146
    ∷ 217 ∷ 35 ∷ 32 ∷ 137 ∷ 46 ∷ 55 ∷ 63 ∷ 209 ∷ 91 ∷ 149 ∷ 188 ∷ 207 ∷ 205 ∷ 144 ∷ 135 ∷ 151 ∷ 178
    ∷ 220 ∷ 252 ∷ 190 ∷ 97 ∷ 242 ∷ 86 ∷ 211 ∷ 171 ∷ 20 ∷ 42 ∷ 93 ∷ 158 ∷ 132 ∷ 60 ∷ 57 ∷ 83 ∷ 71
    ∷ 109 ∷ 65 ∷ 162 ∷ 31 ∷ 45 ∷ 67 ∷ 216 ∷ 183 ∷ 123 ∷ 164 ∷ 118 ∷ 196 ∷ 23 ∷ 73 ∷ 236 ∷ 127 ∷ 12
    ∷ 111 ∷ 246 ∷ 108 ∷ 161 ∷ 59 ∷ 82 ∷ 41 ∷ 157 ∷ 85 ∷ 170 ∷ 251 ∷ 96 ∷ 134 ∷ 177 ∷ 187 ∷ 204 ∷ 62
    ∷ 90 ∷ 203 ∷ 89 ∷ 95 ∷ 176 ∷ 156 ∷ 169 ∷ 160 ∷ 81 ∷ 11 ∷ 245 ∷ 22 ∷ 235 ∷ 122 ∷ 117 ∷ 44 ∷ 215
    ∷ 79 ∷ 174 ∷ 213 ∷ 233 ∷ 230 ∷ 231 ∷ 173 ∷ 232 ∷ 116 ∷ 214 ∷ 244 ∷ 234 ∷ 168 ∷ 80 ∷ 88 ∷ 175
    ∷ []

init_gf-exp : init_gf.gf_exp ≡ powers
unfolding init_gf fill repeat_powers set_entry entry shift_reduce powers
init_gf-exp = refl

init_gf-log : init_gf.gf_log ≡ logs
unfolding init_gf fill repeat_powers set_entry entry shift_reduce logs
init_gf-log = refl

-- A test of every number below a bound, by evaluation.
abbrev every : ℕ → (ℕ → Bool) → Bool
every zero test = true
every (suc n) test = if test n then every n test else false

every-below : (n : ℕ) (test : ℕ → Bool) (x : ℕ) → every n test ≡ true → x < n → test x ≡ true
every-below zero test x h lt = absurd (omega arith)
every-below (suc n) test x h lt = elim (Bool-cases (test n)) [
  | inr other ↦ absurd (let f : false ≡ true = rw other at h in cc)
  | inl here ↦ elim (==-cases x n) [
    | inl (e, _) ↦ rw e here
    | inr (ne, _) ↦ every-below n test x (rw here at h) (omega arith)
  ]
]

abbrev power_test : ℕ → Bool
power_test i =
    (ltb 0 (entry powers i) && ltb (entry powers i) 256)
    && ((entry logs (entry powers i) == i % 255) && (entry powers i == entry powers (i % 255)))

power_tests : every 511 power_test ≡ true
unfolding entry powers logs
power_tests = refl

abbrev next_test : ℕ → Bool
next_test i = shift_reduce (entry powers i) == entry powers (suc i)

next_tests : every 510 next_test ≡ true
unfolding entry powers shift_reduce
next_tests = refl

abbrev log_test : ℕ → Bool
log_test a = (a == 0) || (ltb (entry logs a) 255 && (entry powers (entry logs a) == a))

log_tests : every 256 log_test ≡ true
unfolding entry powers logs
log_tests = refl

abbrev shift_test : ℕ → ℕ → Bool
shift_test a b = shift_reduce (bit_xor a b) == bit_xor (shift_reduce a) (shift_reduce b)

abbrev shift_row : ℕ → Bool
shift_row a = ltb (shift_reduce a) 256 && every 256 (shift_test a)

shift_tests : every 256 shift_row ≡ true
unfolding shift_reduce
shift_tests = refl

abbrev pub power : ℕ → ℕ
power i = entry init_gf.gf_exp i

abbrev pub log : ℕ → ℕ
log a = entry init_gf.gf_log a

pub record IsPower (i : ℕ) : Type 0 where
  pub positive : 0 < power i
  pub byte : power i < 256
  pub logged : log (power i) ≡ i % 255
  pub cycle : power i ≡ power (i % 255)

pub IsPower-IsPower : (i : ℕ) → i < 511 → IsPower i
IsPower-IsPower i h =
    let t = every-below 511 power_test i power_tests h in
    record {
      positive = rw init_gf-exp (ground (arith, t));
      byte = rw init_gf-exp (ground (arith, t));
      logged = rw (init_gf-exp, init_gf-log) (ground (arith, t));
      cycle = rw init_gf-exp (ground (arith, t));
    }

pub power-next : (i : ℕ) → i < 510 → shift_reduce (power i) ≡ power (suc i)
power-next i h =
    let t = every-below 510 next_test i next_tests h in rw init_gf-exp (ground (arith, t))

pub log-lt : (a : ℕ) → 0 < a → a < 256 → log a < 255
log-lt a p h = let t = every-below 256 log_test a log_tests h in rw init_gf-log (ground (arith, t))

pub power-log : (a : ℕ) → 0 < a → a < 256 → power (log a) ≡ a
power-log a p h =
    let t = every-below 256 log_test a log_tests h in
    rw (init_gf-exp, init_gf-log) (ground (arith, t))

pub shift_reduce-byte : (a : ℕ) → a < 256 → shift_reduce a < 256
shift_reduce-byte a h = let t = every-below 256 shift_row a shift_tests h in ground (arith, t)

pub shift_reduce-xor :
    (a b : ℕ)
    → a < 256
    → b < 256
    → shift_reduce (bit_xor a b) ≡ bit_xor (shift_reduce a) (shift_reduce b)
shift_reduce-xor a b h k =
    let t = every-below 256 shift_row a shift_tests h in
    let u : every 256 (shift_test a) ≡ true = ground (arith, t) in
    let v = every-below 256 (shift_test a) b u k in ground (arith, v)

pub power-zero : power 0 ≡ 1
unfolding entry powers
power-zero = rw init_gf-exp refl

pub log-one : log 1 ≡ 0
unfolding entry logs
log-one = rw init_gf-log refl
