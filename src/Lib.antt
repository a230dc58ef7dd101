-- ===== src/Lib.antt =====
-- A model of borsh-rs, the Rust implementation of Borsh, a binary format in which each value has
-- exactly one encoding; and what makes it correct.
--
-- The parts and how they interact. `ser` turns values into bytes: every type implements
-- `BorshSerialize`, whose `serialize` calls `write_all` of a writer. `de` turns bytes into values:
-- every type implements `BorshDeserialize`, whose `deserialize_reader` calls `read` and
-- `read_exact` of a reader. `io` is the crate's own copy of the traits `Read` and `Write` and of
-- `Error`. `schema` describes types as data, and walks over such descriptions. `borsh-derive` makes the
-- implementations of both traits for a struct or an enum, from its fields and their attributes.
--
-- The files, and the code that each models:
--   Io           borsh/src/nostd_io.rs: `Error`, `ErrorKind`, `Read`, `Write`. A method with
--                `&mut self` is a function from the state to a result and the next state.
--                Io/Slice and Io/Sink are the readers and writers of the crate, Io/Stream says
--                what a deserializer needs of a reader, and `IsSink` of Io/Sink what a serializer
--                needs of a writer. Io/Default is proofs on the default `read_exact`.
--   Num, Utf8    little-endian bytes, two's complement, and `String::from_utf8` of Rust's library.
--   Ser          borsh/src/ser/mod.rs: the trait, `check_zst` of borsh/src/error.rs and scalars;
--                Ser/Seq has slices, `Vec`, `VecDeque`, `LinkedList`, arrays and strings, Ser/Sum
--                `Option`, `Result`, tuples and addresses, Ser/Map maps and sets, Ser/Helpers
--                borsh/src/ser/helpers.rs. Ser/Laws, Ser/SeqLaws and Ser/Sorted are proofs.
--   De           borsh/src/de/mod.rs, in the same order; De/Entry has `from_slice` and
--                `from_reader`. De/Laws (what is read back), De/Consumes and De/Exact (what is
--                accepted), De/Bulk (bulk reads from any reader), De/Simulate (a reader against the
--                slice of its bytes), De/Ascending and De/Sorted are proofs. De/Hint is
--                borsh/src/de/hint.rs.
--   Types        the types as data, and the values of each. Types/Dispatch picks the
--                implementation as rustc does; Types/Spec is the format's own description, the
--                encoding of each valid value. Types/Encode, Types/Decode and Types/Canonical go
--                by induction on the type; Types/Results, Types/Maps and Types/Streams
--                have the conclusions.
--   Schema       borsh/src/schema.rs: the container. Schema/ZeroSize and Schema/MaxSize are
--                borsh/src/schema/container_ext/max_size.rs, Schema/Validate is validate.rs beside
--                it. Schema/Types and Schema/Standard are the types of the standard library with
--                their declarations and definitions, `add_definition`, whose comparison is
--                Schema/Equal, and `for_type`. Schema/Conforms is the meaning of a schema: which
--                bytes it allows. Schema/Container, Schema/Width, Schema/Fuel, Schema/Defects,
--                Schema/Declares and Schema/Closed (what is defined), Schema/Describes and
--                Schema/Described (what is encoded), Schema/Bound, Schema/SizeBound and
--                Schema/MaxBound (how long it is) are proofs.
--   Derive       borsh-derive/src/internals: the items that a macro is given. Derive/Attributes is
--                attributes/field, Derive/Item is attributes/item and enum_discriminant.rs,
--                Derive/Serialize and Derive/Deserialize are the directories of these names: the
--                code that a macro makes is data, with a constructor for what each `quote!` writes.
--                Derive/Run and Derive/RunEnum are what such code does, Derive/Spec what
--                it should do: the functions that paths in attributes name, and `Default`, are
--                parameters, and a path that a variable of the code hides names none.
--                Derive/Consistent (attributes), Derive/Assigned (discriminants),
--                Derive/Fields, Derive/Inits and Derive/Structs, Derive/Patterns, Derive/Hidden,
--                Derive/Variants, Derive/Arms, Derive/Chosen, Derive/Enums, Derive/Indices and
--                Derive/Accepts are proofs.
--                Derive/Entry is borsh-derive/src/lib.rs.
--   Tests        runs, and the theorems at concrete inputs.
--
-- Numbers. A u8 to u128 is a natural number below 2^8 to 2^128, which `Valid` states; an i8 to
-- i128 is an integer in its range. usize is that of a 64-bit target, but
-- the walks over a schema take usize::MAX as a parameter. A float is its bit pattern,
-- a string its bytes in UTF-8.
--
-- Fuel. The loop of the bulk read gets one round more than the bytes wanted, since each round
-- reads one at least. The default `write_all` and `read_exact` repeat a call that was interrupted,
-- and get fuel as an argument. The walks over a schema get one level more than there are
-- definitions: each level puts a defined declaration on the stack that was not there.
--
-- Not modelled: in borsh-derive, the macro `BorshSchema` and the bounds on type parameters, for
-- which only the overrides and the types that are looked at are kept, and explicit discriminants
-- other than numbers, sums and shifts of them; the implementations for third-party types (bytes,
-- bson, ascii, indexmap); the capacity that a collection is given at first, which no result
-- shows, with the call of `hint::cautious` that computes it and that would divide by zero for items of
-- a multiple of 2^32 bytes; the schemas of the addresses of std::net, which are derived, and
-- borsh/src/schema_helpers.rs; `RefCell`; formatting of errors; benchmarks, examples and tests. A
-- text of an error of the macros that `syn` or a conversion adds to is cut where that begins.
-- `Box`, `Rc`, `Arc`, `Cow`, `Cell` and references are the values that they hold. A hash
-- collection that was read is given by its entries in ascending order of the keys, which its own
-- iterator does not promise.
pub mod Base
pub mod Io
pub mod Num
pub mod Ser
pub mod Utf8
pub mod De
pub mod Types
pub mod Schema
pub mod Derive
pub mod Tests
