-- ===== src/Query/Send/Placeholder.antt =====
-- The way of a parameter from the query builder to the server.
use mathlib.Core.Path.{subst}
use mathlib.Core.Option
use mathlib.Core.Option.{some-injective}
use ozo.Prelude.{
  ℕ, zero, suc, ◌^◌, ◌<◌, ◌≡◌, refl, ap, sym, ◌∙◌, arith, List, [], ◌∷◌, ◌++◌, Option, none, some,
  Bytes, All, length, get_elem?, get_elem?-map, All-get_elem?, take, drop, append-nil,
}
use ozo.Prelude.Text.{codes}
use ozo.Prelude.Result.{ok}
use ozo.Io.Types.{init}
use ozo.Io.OidMap.{OidMap, IsOidMap, type_oid}
use ozo.Io.SizeOf.{size_of}
use ozo.Io.Recv.{recv}
use ozo.Io.Fits.{Fits}
use ozo.Io.RoundTrip.{recv-send}
use ozo.Io.BinaryQuery.{Param, make_impl}
use ozo.Io.BinaryQuery.Layout.{
  IsPlain, sent, all_sent, PointsTo, AllPointTo, make_impl-AllPointTo, plain_size,
}
use ozo.Query.Builder.{Element, query_param, concat, build, text, params, to_string}
use ozo.Query.Builder.Placeholders.{build-placeholder}
use ozo.Query.Send.{bound, send_query, make_binary_query, pq_send_query_params}

pointer :
    (oids : OidMap) (buffer : Bytes) (ps : List Param) (vs : List (Option ℕ)) (i : ℕ) (p : Param)
    → AllPointTo oids buffer ps vs
    → get_elem? ps i ≡ some p
    → (v : Option ℕ) × (get_elem? vs i ≡ some v) × PointsTo oids buffer p v
pointer oids buffer [] vs i p h e = ground (arith, e)
pointer oids buffer (q ∷ ps) [] i p h e = absurd h
pointer oids buffer (q ∷ ps) (v ∷ vs) zero p h e =
    (v, refl, subst (λ r. PointsTo oids buffer r v) (some-injective _ _ e) h.0)
pointer oids buffer (q ∷ ps) (v ∷ vs) (suc i) p h e = pointer oids buffer ps vs i p h.1 e

pointed :
    (oids : OidMap) (buffer : Bytes) (p : Param) (v : Option ℕ)
    → PointsTo oids buffer p v
    → 0 < length (sent oids p)
    → Option.map (λ offset. take (length (sent oids p)) (drop offset buffer)) v ≡ some (sent oids p)
pointed oids buffer p none h positive = absurd (omega arith)
pointed oids buffer p (some offset) h positive = ap some h.1

-- The parameter with index `i` as libpq sends it.
pub bound-sent :
    (oids : OidMap) (command : Bytes) (ps : List Param) (i : ℕ) (p : Param)
    → All (IsPlain oids) ps
    → length (all_sent oids ps) < 2 ^ 64
    → 0 < length (sent oids p)
    → get_elem? ps i ≡ some p
    → bound (send_query oids (command, ps)) i
      ≡ some (record {
        bound_oid = type_oid oids p.ty;
        bound_format = 1;
        bound_bytes = some (sent oids p);
      })
unfolding bound send_query make_binary_query pq_send_query_params Option.bind
bound-sent oids command ps i p plain small positive e =
    let layout = make_impl-AllPointTo oids ps plain small in
    let at_pointer =
      pointer oids (make_impl oids ps).buffer ps (make_impl oids ps).values i p layout.3 e in
    let oid_there =
      ap (λ xs. get_elem? xs i) layout.0 ∙ get_elem?-map (λ p. type_oid oids p.ty) ps i p e in
    let format_there = ap (λ xs. get_elem? xs i) layout.1 ∙ get_elem?-map (λ p. 1) ps i p e in
    let size_there =
      ap (λ xs. get_elem? xs i) layout.2 ∙ get_elem?-map (λ p. length (sent oids p)) ps i p e in
    rw (oid_there, format_there, size_there, at_pointer.1)
      (rw (pointed oids (make_impl oids ps).buffer p at_pointer.0 at_pointer.2 positive) refl)

abbrev pub query_of : List (Element Param) → List (Element Param) → Param → Bytes × List Param
query_of before after p = build (concat before (query_param p ∷ after))

-- For a parameter of a query builder, among parameters with no null in them, of less than 2 ^ 31
-- bytes each and 2 ^ 64 together, that fits the wire format and writes at least one byte, the
-- command has a dollar sign and a number behind the text of the elements before it, and libpq
-- sends for that number the oid of the parameter, the binary format and bytes from which `recv`
-- gets its value.
pub send_query-placeholder :
    (oids : OidMap) (before after : List (Element Param)) (p : Param)
    → IsOidMap oids
    → Fits p.ty p.value
    → 0 < length (sent oids p)
    → All (IsPlain oids) ((query_of before after p).1)
    → length (all_sent oids ((query_of before after p).1)) < 2 ^ 64
    → let arguments = send_query oids (query_of before after p) in
      let place = length (params before) in
      ((tail : Bytes) × (arguments.command
          ≡ (text before ++ (codes "$" ++ to_string (suc place))) ++ tail))
      × ((bytes : Bytes) × (bound arguments place
            ≡ some (record {
              bound_oid = type_oid oids p.ty;
              bound_format = 1;
              bound_bytes = some bytes;
            }))
          × (recv oids p.ty (some (type_oid oids p.ty)) (length bytes) (init p.ty) bytes
              ≡ ok (p.value, [])))
unfolding send_query make_binary_query pq_send_query_params
send_query-placeholder oids before after p m fits positive plain small =
    let query = query_of before after p in
    let placed = build-placeholder before after p in
    let measured : size_of p.ty p.value ≡ length (sent oids p) =
      plain_size oids p
        (All-get_elem? (IsPlain oids) query.1 (length (params before)) p plain placed.1) in
    (
      placed.0,
      (
        sent oids p,
        bound-sent oids query.0 query.1 (length (params before)) p plain small positive placed.1,
        rw (sym measured, sym (append-nil (sent oids p))) (recv-send oids p.ty p.value [] m fits),
      ),
    )
