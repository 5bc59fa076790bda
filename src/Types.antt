-- ===== src/Types.antt =====
-- internal/types: the entity, the filter object and the mappers.
pub mod Entity
pub mod Dto
pub mod Mapper
pub mod ProductInformation
