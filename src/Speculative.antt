-- ===== src/Speculative.antt =====
-- Speculative decoding, src/speculative.c: distributions, the draws, and the step that drafts tokens with one
-- model and verifies them with another. Tokens and positions are numbers. Failing allocations are left out.
mod Draft
mod Draws
pub mod Plain
pub mod Greedy
pub mod Bounds
use etha_jhol.Common.{
  ℕ, zero, suc, ◌+◌, ◌-◌, ◌*◌, ◌/◌, ◌%◌, ◌^◌, min, Bool, true, false, ◌||◌, not, Option, none, some,
  List, [], ◌∷◌, map, ltb, ◌==◌, if◌then◌else◌, get_or, set, replicate,
}
use etha_jhol.Common.Floats.{Floats}

-- A model graph: the size of its vocabulary, and `vg_model_graph_decode`, which gives the logits or fails,
-- and changes the graph's cache of keys and values.
pub record Graph (F S : Type 0) : Type 0 where
  pub n_vocab : ℕ
  pub decode : S → ℕ → ℕ → Option (List F) × S

-- `VG_SpeculativeConfig` without its graphs; `n_draft` is 0 where the source's is not positive.
pub record Config (F : Type 0) : Type 0 where
  pub n_draft : ℕ
  pub temperature : F
  pub rng : Option ℕ

-- What a step leaves behind: the tokens written, the state of the graphs, and the generator.
pub record Outcome (S : Type 0) : Type 0 where
  pub accepted : List ℕ
  pub state : S
  pub rng : ℕ

-- A token written in front of the others.
unfoldable pub write : {S : Type 0} → ℕ → Outcome S → Outcome S
write token o = record o { accepted = token ∷ o.accepted }

-- `next_rand`
unfoldable pub next_rand : ℕ → ℕ
next_rand state = (state * 1103515245 + 12345) % 2 ^ 32

module _ {F D : Type 0} (fl : Floats F D) where
  open fl use {
    nought, one, lt, le, add, sub, mul, div, exp, is_finite, unit, widen, nought_d, lt_d, le_d,
    add_d, mul_d, inverse,
  }

  -- The scan for the largest entry that carries its value, from index `i` on.
  unfoldable pub best_from : F → ℕ → ℕ → List F → ℕ
  best_from value best i [] = best
  best_from value best i (x ∷ xs) =
      best_from (if lt value x then x else value) (if lt value x then i else best) (suc i) xs

  -- The first of the largest entries.
  unfoldable pub largest : List F → ℕ
  unfolding best_from
  largest [] = 0
  largest (x ∷ xs) = best_from x 0 1 xs

  -- The scan that compares with `xs[best]`.
  unfoldable pub argmax_from : List F → ℕ → ℕ → List F → ℕ
  argmax_from xs best i [] = best
  argmax_from xs best i (y ∷ ys) =
      argmax_from xs (if lt (get_or xs best nought) y then i else best) (suc i) ys

  unfoldable pub argmax : List F → ℕ
  unfolding argmax_from
  argmax [] = 0
  argmax (x ∷ xs) = argmax_from (x ∷ xs) 0 1 xs

  unfoldable pub maximum : F → List F → F
  maximum value [] = value
  maximum value (x ∷ xs) = maximum (if lt value x then x else value) xs

  -- The running sum of an array of floats.
  unfoldable pub total_from : D → List F → D
  total_from total [] = total
  total_from total (p ∷ ps) = total_from (add_d total (widen p)) ps

  unfoldable pub weight : F → F → F → F
  weight temperature mx x =
      let p = exp (div (sub x mx) temperature) in
      if not (is_finite p) || lt p nought then nought else p

  unfoldable pub softmax : F → List F → List F
  unfolding weight maximum total_from
  softmax temperature [] = []
  softmax temperature (x ∷ xs) =
      let ps = map (weight temperature (maximum x xs)) (x ∷ xs) in
      let total = total_from nought_d ps in
      if lt_d nought_d total then map (λ p. mul p (inverse total)) ps else ps

  -- `dist_from_logits`
  unfoldable pub dist_from_logits : ℕ → F → List F → List F
  unfolding largest softmax
  dist_from_logits n_vocab temperature logits =
      if le temperature nought
      then set (replicate n_vocab nought) (largest logits) one
      else softmax temperature logits

  -- `rand_unit`
  unfoldable pub rand_unit : ℕ → F × ℕ
  unfolding next_rand
  rand_unit state = (unit (next_rand state / 256), next_rand state)

  -- The loop of `sample_from` from index `i` on.
  unfoldable pub draw_from : F → F → ℕ → List F → Option ℕ
  draw_from r acc i [] = none
  draw_from r acc i (p ∷ ps) =
      let rest = draw_from r (add acc p) (suc i) ps in if le r (add acc p) then some i else rest

  -- `sample_from`
  unfoldable pub sample_from : ℕ → List F → ℕ → ℕ × ℕ
  unfolding rand_unit draw_from
  sample_from n_vocab p rng =
      let (r, rng') = rand_unit rng in
      (elim (draw_from r nought 0 p) [ none ↦ n_vocab - 1 | some i ↦ i ], rng')

  -- `target[i] - draft[i]` for each token.
  unfoldable pub differences : List F → List F → List F
  differences [] target = []
  differences (d ∷ ds) [] = []
  differences (d ∷ ds) (t ∷ ts) = sub t d ∷ differences ds ts

  -- The sum of the entries above 0.
  unfoldable pub residual_from : D → List F → D
  residual_from total [] = total
  residual_from total (d ∷ ds) =
      residual_from (if lt nought d then add_d total (widen d) else total) ds

  -- The draw from the target's distribution.
  unfoldable pub draw_target : D → D → ℕ → List F → Option ℕ
  draw_target r acc i [] = none
  draw_target r acc i (p ∷ ps) =
      let rest = draw_target r (add_d acc (widen p)) (suc i) ps in
      if le_d r (add_d acc (widen p)) then some i else rest

  -- The draw from the residual, which passes over entries that are not above 0.
  unfoldable pub draw_residual : D → D → ℕ → List F → Option ℕ
  draw_residual r acc i [] = none
  draw_residual r acc i (d ∷ ds) =
      let hit = draw_residual r (add_d acc (widen d)) (suc i) ds in
      let passed = draw_residual r acc (suc i) ds in
      if lt nought d then (if le_d r (add_d acc (widen d)) then some i else hit) else passed

  -- `sample_residual`
  unfoldable pub sample_residual : ℕ → List F → List F → ℕ → ℕ × ℕ
  unfolding rand_unit differences residual_from total_from draw_target draw_residual
  sample_residual n_vocab draft target rng =
      let ds = differences draft target in
      let total = residual_from nought_d ds in
      let whole = total_from nought_d target in
      let (u, rng') = rand_unit rng in
      if lt_d nought_d total
      then (
        elim (draw_residual (mul_d (widen u) total) nought_d 0 ds) [ none ↦ 0 | some i ↦ i ],
        rng',
      )
      else if lt_d nought_d whole
      then (
        elim (draw_target (mul_d (widen u) whole) nought_d 0 target) [
          | none ↦ n_vocab - 1
          | some i ↦ i
        ],
        rng',
      )
      else (0, rng)

  -- The two graphs share one state: that of both, or of the one graph that the configuration names twice.
  module _ {S : Type 0} (draft_graph target_graph : Graph F S) (temp : F) where
    -- A proposal: the draft's logits give its distribution, and at temperature 0 their largest entry.
    unfoldable pub propose : List F → ℕ → ℕ × ℕ
    unfolding sample_from dist_from_logits argmax
    propose logits rng =
        if lt nought temp
        then sample_from target_graph.n_vocab (dist_from_logits target_graph.n_vocab temp logits)
            rng
        else (argmax logits, rng)

    -- The drafting loop, `rounds` proposals from `feed` on, each with the probability that the draft gives it.
    unfoldable pub draft_from : ℕ → ℕ → ℕ → S → ℕ → List (ℕ × F) × S × ℕ
    unfolding propose
    draft_from zero feed pos s rng = ([], s, rng)
    draft_from (suc rounds) feed pos s rng = elim (draft_graph.decode s feed pos).0 [
      | none ↦ ([], (draft_graph.decode s feed pos).1, rng)
      | some logits ↦
          let (token, rng') = propose logits rng in
          let q = get_or (dist_from_logits target_graph.n_vocab temp logits) token nought in
          let (rest, s', rng'') =
            draft_from rounds token (pos + 1) (draft_graph.decode s feed pos).1 rng' in
          ((token, q) ∷ rest, s', rng'')
    ]

    -- The end of a step that writes one more token.
    abbrev last : ℕ → S → ℕ → Outcome S
    last token s rng = record { accepted = token ∷ []; state = s; rng = rng }

    -- The draw in place of a rejected proposal: the draft model decodes the position again.
    unfoldable pub replace : List F → ℕ → ℕ → S → ℕ → Outcome S
    unfolding sample_residual dist_from_logits
    replace p_target feed pos s rng =
        let again = draft_graph.decode s feed pos in
        let p_draft : List F = (elim again.0 [
          | none ↦ replicate target_graph.n_vocab nought
          | some logits ↦ dist_from_logits target_graph.n_vocab temp logits
        ]) in
        let (token, rng') = sample_residual target_graph.n_vocab p_draft p_target rng in
        last token again.1 rng'

    -- `fminf(1.0f, p / q)`, or 1 where the draft gave the proposal the probability 0.
    unfoldable pub acceptance : F → F → F
    acceptance p q =
        if lt nought q then (let ratio = div p q in if lt ratio one then ratio else one) else one

    -- The verifying loop over the proposals, with `room` tokens still to be written at most.
    unfoldable pub verify : List (ℕ × F) → ℕ → ℕ → ℕ → S → ℕ → Outcome S
    unfolding argmax write replace acceptance rand_unit
    verify [] room feed pos s rng = record { accepted = []; state = s; rng = rng }
    verify (p ∷ ps) zero feed pos s rng = record { accepted = []; state = s; rng = rng }
    verify ((token, q) ∷ ps) (suc room) feed pos s rng = elim (target_graph.decode s feed pos).0 [
      | none ↦ record { accepted = []; state = (target_graph.decode s feed pos).1; rng = rng }
      | some logits ↦
          let s' = (target_graph.decode s feed pos).1 in
          let p_target = dist_from_logits target_graph.n_vocab temp logits in
          let (u, rng') = rand_unit rng in
          let greedy_rest = verify ps room (argmax p_target) (pos + 1) s' rng in
          let rest = verify ps room token (pos + 1) s' rng' in
          if le temp nought
          then (if token == argmax p_target
              then write (argmax p_target) greedy_rest
              else last (argmax p_target) s' rng)
          else if le u (acceptance (get_or p_target token nought) q)
          then write token rest
          else replace p_target feed pos s' rng'
    ]

  -- `n_draft` proposals unless it is 0, 64 at most, and no more than there is room for.
  unfoldable pub clamped : ℕ → ℕ → ℕ
  clamped n_draft max_accepted = min (min (if n_draft == 0 then 4 else n_draft) 64) max_accepted

  -- `vg_speculative_step`
  module _ {S : Type 0} (draft_graph target_graph : Graph F S) (cfg : Config F) where
    abbrev pub effective_temperature : F
    effective_temperature = if lt nought cfg.temperature then cfg.temperature else nought

    abbrev pub seed : ℕ
    seed = elim cfg.rng [ none ↦ 0x9e3779b9 | some rng ↦ rng ]

    unfoldable pub speculative_step : ℕ → ℕ → ℕ → S → Outcome S
    unfolding draft_from verify clamped
    speculative_step input_token kv_pos max_accepted s =
        if ltb max_accepted 1 || not (draft_graph.n_vocab == target_graph.n_vocab)
        then record { accepted = []; state = s; rng = seed }
        else let rounds = clamped cfg.n_draft max_accepted in
          let (proposals, s', rng') =
            draft_from draft_graph target_graph effective_temperature rounds input_token kv_pos s
              seed in
          verify draft_graph target_graph effective_temperature proposals max_accepted input_token
            kv_pos s' rng'
