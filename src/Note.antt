-- ===== src/Note.antt =====
-- packages/schemas/src/Slug.ts and packages/note/src/Validate.ts: titles of notes and their slugs.
pub mod Slug
pub mod Validate
mod Tests
